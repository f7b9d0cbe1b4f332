-- ===== src/Topology/Newcomer.antt =====
-- A node id that InsertMerge of pkg/mesh/topology/memory.go has not seen before, at an address
-- that other records claim: pkg/mesh/topology/memory_test.go states both cases on examples.
use liberator_node_go.Prelude.{
  ◌<◌, ◌≡◌, refl, sym, subst, ◌∙◌, ◌≢◌, inl, inr, true, false, none, some, [], arith, Bytes,
  bytes_beq_iff, nat_eq, bytes_eq, Bool-cases, Option-cases, In,
}
use liberator_node_go.Prelude.Map.{
  get, put, erase, get-put, get-erase, get-put_self, get-In, In-get, get-put_ne,
}
use liberator_node_go.Topology.Types.{PeerInfo, State}
use liberator_node_go.Topology.Conflict.{
  IsRival, IsClean, settled, conflict_loop-lost, conflict_loop-dropped, dropped-IsRival,
  conflict_loop-IsRival, delete_all-kept, delete_all-gone,
}
use liberator_node_go.Topology.Ownership.{
  settle-peers, settled_cases, written, written-Keys, written-other, written-own_id,
}
use liberator_node_go.Topology.{
  conflict_loop, delete_all, resolve_address_conflict, settle, insert_merge,
}

module _ (u : PeerInfo) (s : State) (v : IsClean s.peers) (named : u.id ≢ [])
    (unknown : get u.id s.peers ≡ none) (filled : u.address ≢ []) where
  -- The record that stood at the address under another id.
  abbrev Claims : Bytes → PeerInfo → Type 0
  Claims id p = (get id s.peers ≡ some p) × (p.address ≡ u.address)

  insert_merge-settle : insert_merge u s ≡ settle u.id u false s
  unfolding insert_merge
  insert_merge-settle = ground (arith, bytes_beq_iff u.id [])

  written-Claims :
      (id : Bytes) (p : PeerInfo) → In (id, p) (written u s.peers v) → IsRival u id p → Claims id p
  written-Claims id p m (ne, addr) = (
    written-other u s.peers v id p (In-get id p (written u s.peers v) (written-Keys u s.peers v) m)
        ne,
    addr,
  )

  Claims-written :
      (id : Bytes) (p : PeerInfo) → Claims id p → In (id, p) (written u s.peers v) × IsRival u id p
  unfolding written
  Claims-written id p (g, addr) =
      let ne : id ≢ u.id = λ e. ground arith in
      (get-In id p _ (get-put_ne u.id id u s.peers (λ e. ne (sym e)) ∙ g), (ne, addr))

  module _ (fresher : (id : Bytes) (p : PeerInfo) → Claims id p → p.last_seen < u.last_seen) where
    wins :
        settled u s.peers
        ≡ delete_all (conflict_loop u (written u s.peers v)).0 (written u s.peers v)
    wins = elim (settled_cases u s.peers v) [
      | inl (a, e) ↦ absurd (filled a)
      | inr (inl (l, e)) ↦
          let (id, p, m, r, lt) = conflict_loop-IsRival u (written u s.peers v) l in
          let lt' = fresher id p (written-Claims id p m r) in absurd (omega arith)
      | inr (inr (l, e)) ↦ e
    ]

    -- A newcomer that has been seen later than every record at its address in a clean map is
    -- stored as it came, and every record that was at the address is gone. The newcomer's id and
    -- address are not empty.
    pub insert_merge-newcomer :
        (get u.id (insert_merge u s).1.peers ≡ some u)
        × ((id : Bytes) (p : PeerInfo)
            → get id s.peers ≡ some p
            → p.address ≡ u.address
            → get id (insert_merge u s).1.peers ≡ none)
    insert_merge-newcomer =
        rw (insert_merge-settle, settle-peers u false s, wins)
          (
            delete_all-kept _ u.id u (written u s.peers v)
                (unfold written in get-put_self u.id u s.peers)
                (λ q m e.
                  let (id, at, (ne, addr), lt) = dropped-IsRival u (written u s.peers v) q m in
                  let own =
                    written-own_id u s.peers v id q (In-get id q _ (written-Keys u s.peers v) at) in
                  ne (sym own ∙ e)),
            λ id p g addr.
                elim (Option-cases (
                  get id
                    (delete_all (conflict_loop u (written u s.peers v)).0 (written u s.peers v)))) [
                      | inl e ↦ e
                      | inr (q, e) ↦
                          let (at, r) = Claims-written id p (g, addr) in
                          let m =
                            conflict_loop-dropped u (written u s.peers v) id p at r
                              (fresher id p (g, addr)) in
                          let own = v.own_id id p g in
                          absurd (
                            delete_all-gone _ p q (written u s.peers v) m (
                              subst
                                (λ k.
                                  get k (
                                    delete_all (conflict_loop u (written u s.peers v)).0
                                      (written u s.peers v))
                                  ≡ some q)
                                (sym own) e))
                    ],
          )

  module _ (id : Bytes) (p : PeerInfo) (claims : Claims id p)
      (staler : u.last_seen < p.last_seen) where
    loses : (conflict_loop u (written u s.peers v)).1 ≡ true
    loses = elim (Bool-cases (conflict_loop u (written u s.peers v)).1) [
      | inl e ↦ e
      | inr e ↦
          let (at, r) = Claims-written id p claims in
          let le = conflict_loop-lost u (written u s.peers v) id p e at r in absurd (omega arith)
    ]

    settle_loses :
        settle u.id u false s ≡ (false, record s { peers = erase u.id (written u s.peers v) })
    unfolding settle resolve_address_conflict written
    settle_loses = ground (arith, loses, bytes_beq_iff u.address [])

    -- A newcomer, at an address where a fresher record of a clean map stands, is refused:
    -- InsertMerge returns false, tells no subscriber, and the map reads as before at every id.
    -- The newcomer's id and address are not empty.
    pub insert_merge-stale :
        ((insert_merge u s).0 ≡ false)
        × ((insert_merge u s).1.subs ≡ s.subs)
        × ((j : Bytes) → get j (insert_merge u s).1.peers ≡ get j s.peers)
    insert_merge-stale =
        rw (insert_merge-settle, settle_loses)
          (
            refl,
            refl,
            λ j.
                unfold written in
                ground (
                  arith,
                  get-erase u.id j (put u.id u s.peers),
                  get-put u.id j u s.peers,
                  bytes_beq_iff u.id j,
                ),
          )
