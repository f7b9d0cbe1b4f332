-- ===== src/Topology/Conflict.antt =====
-- resolveAddressConflict of pkg/mesh/topology/memory.go: who loses an address.
use liberator_node_go.Prelude.{
  ◌≤◌, ◌<◌, ◌≡◌, refl, ◌≢◌, ◌⊎◌, inl, inr, true, false, some, List, [], ◌∷◌, arith, if◌then◌else◌,
  Bytes, bytes_beq_iff, keep, nat_eq, bytes_eq, Bool-cases, In,
}
use liberator_node_go.Prelude.Map.{get, put, erase, Keys, get-erase}
use liberator_node_go.Topology.Types.{PeerInfo}
use liberator_node_go.Topology.{conflict_loop, delete_all, resolve_address_conflict}

-- Another record at the address of `keep`.
abbrev pub IsRival : PeerInfo → Bytes → PeerInfo → Type 0
IsRival keep id p = (id ≢ keep.id) × (p.address ≡ keep.address)

pub conflict_loop-lost :
    (keep : PeerInfo) (peers : List (Bytes × PeerInfo)) (id : Bytes) (p : PeerInfo)
    → (conflict_loop keep peers).1 ≡ false
    → In (id, p) peers
    → IsRival keep id p
    → p.last_seen ≤ keep.last_seen
unfolding conflict_loop
conflict_loop-lost keep [] id p h m r = elim m [ ]
conflict_loop-lost keep ((j, q) ∷ rest) id p h m r = ground (
  arith,
  bytes_beq_iff j keep.id,
  bytes_beq_iff q.address keep.address,
  conflict_loop-lost keep rest id p,
)

pub conflict_loop-dropped :
    (keep : PeerInfo) (peers : List (Bytes × PeerInfo)) (id : Bytes) (p : PeerInfo)
    → In (id, p) peers
    → IsRival keep id p
    → p.last_seen < keep.last_seen
    → In p (conflict_loop keep peers).0
unfolding conflict_loop
conflict_loop-dropped keep [] id p m r h = elim m [ ]
conflict_loop-dropped keep ((j, q) ∷ rest) id p m r h = ground (
  arith,
  bytes_beq_iff j keep.id,
  bytes_beq_iff q.address keep.address,
  conflict_loop-dropped keep rest id p,
)

dropped_cases :
    (keep : PeerInfo) (j : Bytes) (q : PeerInfo) (rest : List (Bytes × PeerInfo)) (p : PeerInfo)
    → In p (conflict_loop keep ((j, q) ∷ rest)).0
    → In p (conflict_loop keep rest).0
      ⊎ ((q ≡ p) × IsRival keep j q × (q.last_seen < keep.last_seen))
unfolding conflict_loop
dropped_cases keep j q rest p m =
    ground (arith, bytes_beq_iff j keep.id, bytes_beq_iff q.address keep.address)

-- Only staler records at the same address are dropped.
pub dropped-IsRival :
    (keep : PeerInfo) (peers : List (Bytes × PeerInfo)) (p : PeerInfo)
    → In p (conflict_loop keep peers).0
    → (id : Bytes) × In (id, p) peers × IsRival keep id p × (p.last_seen < keep.last_seen)
unfolding conflict_loop
dropped-IsRival keep [] p m = elim m [ ]
dropped-IsRival keep ((j, q) ∷ rest) p m = elim (dropped_cases keep j q rest p m) [
  | inl old ↦ let (id, at, r, lt) = dropped-IsRival keep rest p old in (id, inr at, r, lt)
  | inr (e, r, lt) ↦ (j, inl (ground arith), ground arith, ground arith)
]

pub conflict_loop-IsRival :
    (keep : PeerInfo) (peers : List (Bytes × PeerInfo))
    → (conflict_loop keep peers).1 ≡ true
    → (id : Bytes) × (p : PeerInfo) × In (id, p) peers
      × IsRival keep id p
      × (keep.last_seen < p.last_seen)
unfolding conflict_loop
conflict_loop-IsRival keep [] h = absurd (cc)
conflict_loop-IsRival keep ((j, q) ∷ rest) h = elim (Bool-cases (conflict_loop keep rest).1) [
  | inl t ↦ let (id, p, m, r, lt) = conflict_loop-IsRival keep rest t in (id, p, inr m, r, lt)
  | inr t ↦ (
    j,
    q,
    inl refl,
    (
      ground (arith, bytes_beq_iff j keep.id, bytes_beq_iff q.address keep.address),
      ground (arith, bytes_beq_iff j keep.id, bytes_beq_iff q.address keep.address),
    ),
    ground (arith, bytes_beq_iff j keep.id, bytes_beq_iff q.address keep.address),
  )
]

-- A key survives the deletion of records unless it is the id of one of them.
pub delete_all-kept :
    (ps : List PeerInfo) (j : Bytes) (p : PeerInfo) (peers : List (Bytes × PeerInfo))
    → get j peers ≡ some p
    → ((q : PeerInfo) → In q ps → q.id ≢ j)
    → get j (delete_all ps peers) ≡ some p
unfolding delete_all
delete_all-kept [] j p peers g n = g
delete_all-kept (r ∷ ps) j p peers g n =
    delete_all-kept ps j p (erase r.id peers)
      (ground (arith, get-erase r.id j peers, bytes_beq_iff r.id j, n r (inl refl)))
      (λ q m. n q (inr m))

pub delete_all-old :
    (ps : List PeerInfo) (j : Bytes) (p : PeerInfo) (peers : List (Bytes × PeerInfo))
    → get j (delete_all ps peers) ≡ some p
    → get j peers ≡ some p
unfolding delete_all
delete_all-old [] j p peers g = g
delete_all-old (r ∷ ps) j p peers g =
    ground (arith, delete_all-old ps j p (erase r.id peers) g, get-erase r.id j peers)

pub delete_all-gone :
    (ps : List PeerInfo) (q p : PeerInfo) (peers : List (Bytes × PeerInfo))
    → In q ps
    → get q.id (delete_all ps peers) ≢ some p
unfolding delete_all
delete_all-gone [] q p peers m g = elim m [ ]
delete_all-gone (r ∷ ps) q p peers (inl e) g = ground (
  arith,
  delete_all-old ps q.id p (erase r.id peers) g,
  get-erase r.id q.id peers,
  bytes_beq_iff r.id q.id,
)
delete_all-gone (r ∷ ps) q p peers (inr m) g = delete_all-gone ps q p (erase r.id peers) m g

-- Every record stands under its own id, and no two fresh ones share an address that is not empty:
-- records with the same such address have been seen at the same time.
pub record IsClean (peers : List (Bytes × PeerInfo)) : Type 0 where
  pub keys : Keys peers
  pub own_id : (id : Bytes) (p : PeerInfo) → get id peers ≡ some p → p.id ≡ id
  pub one_owner :
      (i j : Bytes) (p q : PeerInfo)
      → get i peers ≡ some p
      → get j peers ≡ some q
      → p.address ≢ []
      → p.address ≡ q.address
      → p.last_seen ≡ q.last_seen

-- What the map is after the record `keep` was written under its id and its conflict resolved.
abbrev pub settled : PeerInfo → List (Bytes × PeerInfo) → List (Bytes × PeerInfo)
settled keep peers =
    let (dropped, lost, after) = resolve_address_conflict keep (put keep.id keep peers) in
    if lost then erase keep.id after else after
