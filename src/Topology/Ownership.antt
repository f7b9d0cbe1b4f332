-- ===== src/Topology/Ownership.antt =====
-- InsertMerge and Remove of pkg/mesh/topology/memory.go: one address, one node.
use liberator_node_go.Prelude.{
  ◌≤◌, ◌<◌, ◌≡◌, refl, sym, ap, subst, ◌∙◌, ◌≢◌, ◌⊎◌, inl, inr, Bool, true, false, some, List, [],
  ◌∷◌, arith, if◌then◌else◌, Bytes, bytes_beq, bytes_beq_iff, keep, nat_eq, bytes_eq, Bool-cases,
  Option-cases,
}
use liberator_node_go.Prelude.Map.{
  get, put, erase, Keys, get-put, get-erase, get-put_self, get-In, put-Keys, erase-Keys,
}
use liberator_node_go.Topology.Types.{PeerInfo, State}
use liberator_node_go.Topology.Conflict.{
  IsRival, IsClean, settled, conflict_loop-lost, conflict_loop-dropped, delete_all-old,
  delete_all-gone,
}
use liberator_node_go.Topology.{
  notify, notify_left, merge, conflict_loop, delete_all, resolve_address_conflict, settle,
  insert_merge, remove,
}

delete_all-Keys :
    (ps : List PeerInfo) (peers : List (Bytes × PeerInfo)) → Keys peers → Keys (delete_all ps peers)
unfolding delete_all
delete_all-Keys [] peers d = d
delete_all-Keys (p ∷ ps) peers d = delete_all-Keys ps (erase p.id peers) (erase-Keys p.id peers d)

module _ (keep : PeerInfo) (peers : List (Bytes × PeerInfo)) (v : IsClean peers) where
  unfoldable pub written : List (Bytes × PeerInfo)
  written = put keep.id keep peers

  pub written-Keys : Keys written
  unfolding written
  written-Keys = put-Keys keep.id keep peers v.keys

  pub written-own_id : (id : Bytes) (p : PeerInfo) → get id written ≡ some p → p.id ≡ id
  unfolding written
  written-own_id id p g =
      ground (arith, get-put keep.id id keep peers, bytes_beq_iff keep.id id, v.own_id id p)

  -- A record of another id was there before.
  pub written-other :
      (id : Bytes) (p : PeerInfo) → get id written ≡ some p → id ≢ keep.id → get id peers ≡ some p
  unfolding written
  written-other id p g n = ground (arith, get-put keep.id id keep peers, bytes_beq_iff keep.id id)

  written_self : (p : PeerInfo) → get keep.id written ≡ some p → p ≡ keep
  unfolding written
  written_self p g = ground (arith, get-put_self keep.id keep peers)

  -- The three ways in which the conflict is resolved.
  pub settled_cases :
      ((keep.address ≡ []) × (settled keep peers ≡ written))
      ⊎ (((conflict_loop keep written).1 ≡ true) × (settled keep peers ≡ erase keep.id written))
      ⊎ (((conflict_loop keep written).1 ≡ false)
          × (settled keep peers ≡ delete_all (conflict_loop keep written).0 written))
  unfolding resolve_address_conflict written
  settled_cases = ground (arith, bytes_beq_iff keep.address [])

  pub settled-Keys : Keys (settled keep peers)
  settled-Keys = elim settled_cases [
    | inl (a, e) ↦ rw e written-Keys
    | inr (inl (l, e)) ↦ rw e (erase-Keys keep.id written written-Keys)
    | inr (inr (l, e)) ↦ rw e (delete_all-Keys _ written written-Keys)
  ]

  pub settled-written :
      (id : Bytes) (p : PeerInfo) → get id (settled keep peers) ≡ some p → get id written ≡ some p
  settled-written id p g = elim settled_cases [
    | inl (a, e) ↦ rw e at g
    | inr (inl (l, e)) ↦ ground (arith, rw e at g, get-erase keep.id id written)
    | inr (inr (l, e)) ↦ delete_all-old _ id p written (rw e at g)
  ]

  -- A rival of the record that stays has been seen at the same time.
  settled-rival :
      (id : Bytes) (p : PeerInfo)
      → get keep.id (settled keep peers) ≡ some keep
      → get id (settled keep peers) ≡ some p
      → keep.address ≢ []
      → IsRival keep id p
      → p.last_seen ≡ keep.last_seen
  settled-rival id p k g filled r = elim settled_cases [
    | inl (a, e) ↦ absurd (filled a)
    | inr (inl (l, e)) ↦ absurd (
        ground (arith, rw e at k, get-erase keep.id keep.id written, bytes_beq_iff keep.id keep.id))
    | inr (inr (l, e)) ↦
        let at = get-In id p written (settled-written id p g) in
        let le = conflict_loop-lost keep written id p l at r in
        let stay : ¬ (p.last_seen < keep.last_seen) = λ lt.
          let own = written-own_id id p (settled-written id p g) in
          delete_all-gone (conflict_loop keep written).0 p p written
            (conflict_loop-dropped keep written id p at r lt)
            (subst (λ k. get k (delete_all (conflict_loop keep written).0 written) ≡ some p)
              (sym own) (rw e at g)) in
        omega arith
  ]

  -- What stands under the id of the written record is that record.
  settled_self :
      (id : Bytes) (p : PeerInfo)
      → get id (settled keep peers) ≡ some p
      → id ≡ keep.id
      → (p ≡ keep) × (get keep.id (settled keep peers) ≡ some keep)
  settled_self id p g e =
      let g' = subst (λ k. get k (settled keep peers) ≡ some p) e g in
      let q = written_self p (settled-written keep.id p g') in (q, g' ∙ ap some q)

  -- With the written record on one side.
  settled-pair :
      (i j : Bytes) (p q : PeerInfo)
      → get i (settled keep peers) ≡ some p
      → get j (settled keep peers) ≡ some q
      → i ≡ keep.id
      → j ≢ keep.id
      → p.address ≢ []
      → p.address ≡ q.address
      → q.last_seen ≡ p.last_seen
  settled-pair i j p q g h ei ej filled same =
      let (pk, k) = settled_self i p g ei in
      let addr : p.address ≡ keep.address = ap (λ (x : PeerInfo). x.address) pk in
      let seen : p.last_seen ≡ keep.last_seen = ap (λ (x : PeerInfo). x.last_seen) pk in
      settled-rival j q k h (λ n. filled (addr ∙ n)) (ej, sym same ∙ addr) ∙ sym seen

  settled-one_owner :
      (i j : Bytes) (p q : PeerInfo)
      → get i (settled keep peers) ≡ some p
      → get j (settled keep peers) ≡ some q
      → p.address ≢ []
      → p.address ≡ q.address
      → p.last_seen ≡ q.last_seen
  settled-one_owner i j p q g h filled same = elim (Bool-cases (bytes_beq i keep.id)) [
    | inl ei ↦ elim (Bool-cases (bytes_beq j keep.id)) [
      | inl ej ↦
          let p' = settled_self i p g ((bytes_beq_iff i keep.id).0 ei) in
          let q' = settled_self j q h ((bytes_beq_iff j keep.id).0 ej) in
          ap (λ (x : PeerInfo). x.last_seen) (p'.0 ∙ sym q'.0)
      | inr ej ↦
          sym (settled-pair i j p q g h ((bytes_beq_iff i keep.id).0 ei) (differs j ej) filled same)
    ]
    | inr ei ↦ elim (Bool-cases (bytes_beq j keep.id)) [
      | inl ej ↦
          settled-pair j i q p h g ((bytes_beq_iff j keep.id).0 ej) (differs i ei)
            (λ n. filled (same ∙ n)) (sym same)
      | inr ej ↦
          v.one_owner i j p q (written-other i p (settled-written i p g) (differs i ei))
            (written-other j q (settled-written j q h) (differs j ej)) filled same
    ]
  ]
    where
      differs : (k : Bytes) → bytes_beq k keep.id ≡ false → k ≢ keep.id
      differs k e q = cc (e, (bytes_beq_iff k keep.id).1 q)

  settled-IsClean : IsClean (settled keep peers)
  settled-IsClean = record {
    keys = settled-Keys;
    own_id = λ id p g. written-own_id id p (settled-written id p g);
    one_owner = settled-one_owner;
  }

pub notify_left-peers : (ps : List PeerInfo) (s : State) → (notify_left ps s).peers ≡ s.peers
unfolding notify_left notify
notify_left-peers [] s = refl
notify_left-peers (p ∷ ps) s = notify_left-peers ps _

either_state :
    (quiet : Bool) (x y : State)
    → y.peers ≡ x.peers
    → (let r : Bool × State = (if quiet then (false, x) else (true, y)) in r.1.peers ≡ x.peers)
either_state true x y e = refl
either_state false x y e = e

-- Telling the subscribers leaves the map as it is.
pub settle-peers :
    (keep : PeerInfo) (known : Bool) (s : State)
    → (settle keep.id keep known s).1.peers ≡ settled keep s.peers
unfolding settle notify
settle-peers keep known s = either_state _ _ _ (notify_left-peers _ _)

-- A merged record keeps its id, and is never seen earlier than before.
merge_lem :
    (existing update : PeerInfo)
    → ((merge existing update).0.id ≡ existing.id)
      × (existing.last_seen ≤ (merge existing update).0.last_seen)
unfolding merge
merge_lem existing update = ground arith

-- InsertMerge keeps the map clean: every record under its own id, and records with the same
-- address seen at the same time, so that an address has one owner as soon as one is fresher.
pub insert_merge-IsClean :
    (update : PeerInfo) (s : State) → IsClean s.peers → IsClean (insert_merge update s).1.peers
unfolding insert_merge
insert_merge-IsClean update s v = elim (Bool-cases (bytes_beq update.id [])) [
  | inl e ↦ rw (e, insert_merge) v
  | inr e ↦ elim (Option-cases (get update.id s.peers)) [
    | inl g ↦
        rw (e, insert_merge, g, settle-peers update false s) (settled-IsClean update s.peers v)
    | inr (existing, g) ↦ elim (Bool-cases (merge existing update).1) [
      | inr c ↦ rw (e, insert_merge, g, c) v
      | inl c ↦
          let same = (merge_lem existing update).0 ∙ v.own_id update.id existing g in
          rw (e, insert_merge, g, c)
            (subst (λ k. IsClean (settle k (merge existing update).0 true s).1.peers) same
              (rw (settle-peers (merge existing update).0 true s)
                (settled-IsClean (merge existing update).0 s.peers v)))
    ]
  ]
]

-- Remove keeps the map clean.
pub remove-IsClean : (id : Bytes) (s : State) → IsClean s.peers → IsClean (remove id s).peers
unfolding remove notify
remove-IsClean id s v = elim (Bool-cases (bytes_beq id [])) [
  | inl e ↦ rw (e, remove) v
  | inr e ↦ elim (Option-cases (get id s.peers)) [
    | inl g ↦ rw (e, remove, g) v
    | inr (p, g) ↦
        rw (e, remove, g)
          (record {
            keys = erase-Keys id s.peers v.keys;
            own_id = λ j q h. v.own_id j q (ground (arith, get-erase id j s.peers));
            one_owner = λ i j q r h k.
                v.one_owner i j q r (ground (arith, get-erase id i s.peers))
                  (ground (arith, get-erase id j s.peers));
          })
  ]
]
