-- ===== src/PeersManager/Created.antt =====
-- CreatePeerAutoID of pkg/services/peersmanager: a new peer has an address of its own.
use liberator_node_go.Prelude.{
  ℕ, ◌+◌, ◌%◌, ◌^◌, ◌≤◌, ◌<◌, ◌≡◌, refl, ◌≢◌, ◌⊎◌, inl, inr, Bool, true, ◌&&◌, Option, none, some,
  List, [], ◌∷◌, arith, Bytes, nat_eq, bytes_eq, Bool-cases, Option-cases, In,
}
use liberator_node_go.Prelude.{In-append_right}
use liberator_node_go.Prelude.Map.{get, get-put_self}
use liberator_node_go.Database
use liberator_node_go.Database.{PeerRow, Database, next_virtual_ip}
use liberator_node_go.Database.Ids.{IsDatabase}
use liberator_node_go.Database.Changes.{next_virtual_ip_low, next_virtual_ip_above}
use liberator_node_go.FirewallManager
use liberator_node_go.FirewallManager.{Manager}
use liberator_node_go.PeersManager.{
  Peer, PeersManager, Transport, row_of, commit_peer, create_peer_auto_id,
}
use liberator_node_go.PeersManager.Laws.{Laws, Has}

-- The addresses of the table, and the one after them, are 32-bit addresses.
abbrev pub HasAddresses : ℕ → Database → Type 0
HasAddresses low db = (low < 2 ^ 32) × ((q : PeerRow) → In q db.peers → q.virtual_ip + 1 < 2 ^ 32)

next_virtual_ip_bound :
    (low : ℕ) (ps : List PeerRow)
    → low < 2 ^ 32
    → ((q : PeerRow) → In q ps → q.virtual_ip + 1 < 2 ^ 32)
    → next_virtual_ip low ps < 2 ^ 32
unfolding next_virtual_ip
next_virtual_ip_bound low [] h small = h
next_virtual_ip_bound low (p ∷ ps) h small =
    ground (arith, small p (inl refl), next_virtual_ip_bound low ps h (λ q m. small q (inr m)))

next_virtual_ip_fresh :
    (low : ℕ) (ps : List PeerRow) (q : PeerRow) → In q ps → q.virtual_ip ≢ next_virtual_ip low ps
next_virtual_ip_fresh low ps q m e =
    let above = next_virtual_ip_above low ps q m in
    let bound = next_virtual_ip_low low ps in ground arith

-- The peer `p` is new: its row is in the tables `db'`, no row of `db` has its id or its address,
-- which is not below `low`, and its transport has it.
abbrev pub IsNew :
    {T : Type 0} → Transport T → ℕ → Database → Database → List (Bytes × T) → Bytes → Peer → Type 0
IsNew ops low db db' ts name p =
    ((row : PeerRow) × In row db'.peers × (row.id ≡ p.id) × (row.virtual_ip ≡ p.virtual_ip))
    × ((q : PeerRow) → In q db.peers → (q.id ≢ p.id) × (q.virtual_ip ≢ p.virtual_ip))
    × (low ≤ p.virtual_ip)
    × Has ops name p.virtual_ip ts

module _ {F T : Type 0} (rules : FirewallManager.Operations F) (ops : Transport T)
    (laws : Laws ops) where
  -- What CreatePeerAutoID leaves: a new peer, or an error and the tables and rules as they were.
  abbrev pub CreateOutcome : PeersManager F T → Bytes → Option Peer × PeersManager F T → Type 0
  CreateOutcome m name (result, m') =
      ((p : Peer) × (result ≡ some p)
        × IsNew ops m.starting_ip m.rules.db m'.rules.db m'.transports name p
        × (m'.rules.firewall ≡ m.rules.firewall))
      ⊎ ((result ≡ none) × (m'.rules ≡ m.rules))

  commit_peer-CreateOutcome :
      (committed : Bool) (name : Bytes) (now : ℕ) (peer : Peer) (t : T) (m : PeersManager F T)
      → IsDatabase m.rules.db
      → HasAddresses m.starting_ip m.rules.db
      → CreateOutcome m name (
          commit_peer rules ops committed name peer t
            (Database.create_peer_auto_id now m.starting_ip (row_of peer) m.rules.db)
            m)
  unfolding commit_peer Database.create_peer_auto_id
  commit_peer-CreateOutcome committed name now peer t m d (low, small) =
      let db = m.rules.db in
      let ip = next_virtual_ip m.starting_ip db.peers in
      let bound = next_virtual_ip_bound m.starting_ip db.peers low small in
      let row = (Database.create_peer_auto_id now m.starting_ip (row_of peer) db).0 in
      let peer' : Peer = record peer { id = db.next_peer_id; virtual_ip = ip } in
      let fits : ip % 2 ^ 32 ≡ ip = omega arith in
      elim (Bool-cases ((ops.create_peer peer' t).0 && committed)) [
        | inr e ↦ rw (fits, e) (inr (refl, refl))
        | inl e ↦
            let ok : (ops.create_peer peer' t).0 ≡ true = ground arith in
            rw (fits, e)
              (inl (
                peer',
                refl,
                (
                  (row, In-append_right row db.peers (row ∷ []) (inl refl), refl, refl),
                  λ q i. (
                    λ same. omega (arith, d.peers_below q i),
                    next_virtual_ip_fresh m.starting_ip db.peers q i,
                  ),
                  next_virtual_ip_low m.starting_ip db.peers,
                  (
                    (ops.create_peer peer' t).1,
                    get-put_self name _ m.transports,
                    laws.create_exists peer' t ok,
                  ),
                ),
                refl,
              ))
      ]

-- Take a transport interface that keeps its laws, tables whose ids were given out once, and
-- addresses below 2 ^ 32 - 1. With any failures of the transaction and of the transport,
-- CreatePeerAutoID either returns a peer whose row is in the tables, whose id and address no
-- other row has, whose address is not below the first of the node, and that its transport has, and
-- leaves the firewall alone; or it returns an error and leaves the tables and the firewall alone.
pub create_peer_auto_id-CreateOutcome :
    {F T : Type 0} (rules : FirewallManager.Operations F) (ops : Transport T) (laws : Laws ops)
    (begun inserted committed : Bool) (now : ℕ) (peer : Peer) (m : PeersManager F T)
    → IsDatabase m.rules.db
    → HasAddresses m.starting_ip m.rules.db
    → CreateOutcome rules ops laws m peer.kind
        (create_peer_auto_id rules ops begun inserted committed now peer m)
unfolding create_peer_auto_id
create_peer_auto_id-CreateOutcome rules ops laws begun inserted committed now peer m d small =
    elim (Option-cases (get peer.kind m.transports)) [
      | inl g ↦ rw (create_peer_auto_id, g) (inr (refl, refl))
      | inr (t, g) ↦ elim (Option-cases (ops.generate_peer_keys peer t)) [
        | inl k ↦ rw (create_peer_auto_id, g, k) (inr (refl, refl))
        | inr (peer', k) ↦ elim (Bool-cases (begun && inserted)) [
          | inr e ↦ rw (create_peer_auto_id, g, k, e) (inr (refl, refl))
          | inl e ↦
              rw (create_peer_auto_id, g, k, e)
                (commit_peer-CreateOutcome rules ops laws committed peer.kind now peer' t m d small)
        ]
      ]
    ]
