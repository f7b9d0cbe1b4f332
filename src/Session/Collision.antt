-- ===== src/Session/Collision.antt =====
-- Add of pkg/mesh/session/registry.go when two nodes have dialled each other.
use liberator_node_go.Prelude.{
  ℕ, ◌-◌, ◌<◌, ◌≡◌, refl, sym, ap, subst, ◌∙◌, ◌≢◌, inl, inr, true, false, Option, none, some, [],
  arith, if◌then◌else◌, bytes_ltb, bytes_ltb_flip, Bytes, bytes_beq_iff, nat_eq, bytes_eq,
  Bool-cases, Option-cases,
}
use liberator_node_go.Prelude.Map.{get, get-put_self}
use liberator_node_go.Session.{
  Session, Registry, AddError, tie_break, collision_window, is_dead, collision, store, add,
  close_session,
}

-- A node that has no session with the peer, and two connections to it: one that the node opened
-- and one that the peer opened.
pub record Crossing (r : Registry) (peer : Bytes) (out inn : Session) : Type 0 where
  pub named : peer ≢ []
  pub other : peer ≢ r.local_id
  pub is_open : r.closed ≡ false
  pub fresh : get peer r.sessions ≡ none
  pub out_peer : out.peer_id ≡ peer
  pub inn_peer : inn.peer_id ≡ peer
  pub outbound : out.initiator ≡ true
  pub inbound : inn.initiator ≡ false
  pub out_alive : is_dead out.handle r.dead ≡ false
  pub inn_alive : is_dead inn.handle r.dead ≡ false

-- The connection opened by the node with the greater id.
abbrev pub winner : Registry → Bytes → Session → Session → Session
winner r peer out inn = if bytes_ltb peer r.local_id then out else inn

-- The connection that is stored for the peer.
pub stored_handle : Bytes → Registry → Option ℕ
stored_handle peer r = elim (get peer r.sessions) [ none ↦ none | some s ↦ some s.handle ]

handle_of :
    (peer : Bytes) (s : Session) (r : Registry)
    → get peer r.sessions ≡ some s
    → stored_handle peer r ≡ some s.handle
unfolding stored_handle
handle_of peer s r e = rw (e, stored_handle)

-- Adding the first of the two.
first_add :
    (now : ℕ) (s : Session) (r : Registry)
    → s.peer_id ≢ []
    → s.peer_id ≢ r.local_id
    → r.closed ≡ false
    → get s.peer_id r.sessions ≡ none
    → add now s r ≡ (none, store now s r)
unfolding add
first_add now s r a b c d =
    ground (arith, bytes_beq_iff s.peer_id [], bytes_beq_iff s.peer_id r.local_id)

-- Adding the second one, to a live session with the same peer.
second_add :
    (now : ℕ) (s old : Session) (r : Registry)
    → s.peer_id ≢ []
    → s.peer_id ≢ r.local_id
    → r.closed ≡ false
    → get s.peer_id r.sessions ≡ some old
    → is_dead old.handle r.dead ≡ false
    → (add now s r).1 ≡ elim (collision now r.local_id old s) [
      | some e ↦ r
      | none ↦ close_session old (store now s r)
    ]
unfolding add
second_add now s old r a b c d f = elim (Option-cases (collision now r.local_id old s)) [
  | inl e ↦ rw (e) (ground (arith, bytes_beq_iff s.peer_id [], bytes_beq_iff s.peer_id r.local_id))
  | inr (x, e) ↦
      rw (e) (ground (arith, bytes_beq_iff s.peer_id [], bytes_beq_iff s.peer_id r.local_id))
]

-- The peer's entry after a session was stored.
store-get :
    (now : ℕ) (s : Session) (r : Registry)
    → get s.peer_id (store now s r).sessions ≡ some (record s { added_at = now })
unfolding store
store-get now s r = get-put_self s.peer_id (record s { added_at = now }) r.sessions

-- Two sessions with one peer, added one after the other within the window.
module _ (first second : Session) (r : Registry) (t1 t2 : ℕ) (named : first.peer_id ≢ [])
    (other : first.peer_id ≢ r.local_id) (is_open : r.closed ≡ false)
    (fresh : get first.peer_id r.sessions ≡ none) (same : second.peer_id ≡ first.peer_id)
    (alive : is_dead first.handle r.dead ≡ false) (soon : t2 - t1 < collision_window) where
  two_adds :
      stored_handle first.peer_id (add t2 second (add t1 first r).1).1
      ≡ elim (collision t2 r.local_id (record first { added_at = t1 }) second) [
        | some e ↦ some first.handle
        | none ↦ some second.handle
      ]
  unfolding store
  two_adds =
      let e1 = first_add t1 first r named other is_open fresh in
      let got : get second.peer_id (store t1 first r).sessions
          ≡ some (record first { added_at = t1 }) =
        subst (λ k. get k (store t1 first r).sessions ≡ some (record first { added_at = t1 }))
          (sym same) (store-get t1 first r) in
      let e2 =
        second_add t2 second (record first { added_at = t1 }) (store t1 first r)
          (λ q. named (sym same ∙ q)) (λ q. other (sym same ∙ q ∙ unfold store in refl))
          (unfold store in is_open) got (unfold store in alive) in
      rw (e1, e2) (outcome (collision t2 r.local_id (record first { added_at = t1 }) second) got)
    where
      outcome :
          (c : Option AddError)
          → get second.peer_id (store t1 first r).sessions ≡ some (record first { added_at = t1 })
          → stored_handle first.peer_id (elim c [
            | some e ↦ store t1 first r
            | none ↦
                close_session (record first { added_at = t1 }) (store t2 second (store t1 first r))
          ])
            ≡ elim c [ some e ↦ some first.handle | none ↦ some second.handle ]
      outcome (some e) got =
          handle_of first.peer_id (record first { added_at = t1 }) (store t1 first r)
            (store-get t1 first r)
      outcome none got =
          handle_of first.peer_id (record second { added_at = t2 })
            (close_session (record first { added_at = t1 }) (store t2 second (store t1 first r)))
            (unfold close_session in
              subst
                (λ k.
                  get k (store t2 second (store t1 first r)).sessions
                  ≡ some (record second { added_at = t2 }))
                same (store-get t2 second (store t1 first r)))

collision_out_first :
    (local_id : Bytes) (f g : Session) (t1 t2 : ℕ)
    → f.initiator ≡ true
    → g.initiator ≡ false
    → t2 - t1 < collision_window
    → collision t2 local_id (record f { added_at = t1 }) g
      ≡ (if bytes_ltb g.peer_id local_id then some tie_break else none)
unfolding collision
collision_out_first local_id f g t1 t2 a b soon = ground arith

collision_in_first :
    (local_id : Bytes) (f g : Session) (t1 t2 : ℕ)
    → f.initiator ≡ false
    → g.initiator ≡ true
    → t2 - t1 < collision_window
    → collision t2 local_id (record f { added_at = t1 }) g
      ≡ (if bytes_ltb g.peer_id local_id then none else some tie_break)
unfolding collision
collision_in_first local_id f g t1 t2 a b soon = ground arith

-- The tie-break: of two live connections with a peer that has no session yet, one in each
-- direction, added to an open registry within the window, the connection that was opened by the node with the greater id
-- is kept, in whichever order the two are added.
pub tie_break_lem :
    (r : Registry) (peer : Bytes) (out inn : Session) (t1 t2 : ℕ)
    → Crossing r peer out inn
    → t2 - t1 < collision_window
    → (stored_handle peer (add t2 inn (add t1 out r).1).1 ≡ some (winner r peer out inn).handle)
      × (stored_handle peer (add t2 out (add t1 inn r).1).1 ≡ some (winner r peer out inn).handle)
tie_break_lem r peer out inn t1 t2 c soon =
    let a =
      two_adds out inn r t1 t2 (λ q. c.named (sym c.out_peer ∙ q))
        (λ q. c.other (sym c.out_peer ∙ q)) c.is_open
        (subst (λ k. get k r.sessions ≡ none) (sym c.out_peer) c.fresh)
        (c.inn_peer ∙ sym c.out_peer) c.out_alive soon in
    let b =
      two_adds inn out r t1 t2 (λ q. c.named (sym c.inn_peer ∙ q))
        (λ q. c.other (sym c.inn_peer ∙ q)) c.is_open
        (subst (λ k. get k r.sessions ≡ none) (sym c.inn_peer) c.fresh)
        (c.out_peer ∙ sym c.inn_peer) c.inn_alive soon in
    let ca = collision_out_first r.local_id out inn t1 t2 c.outbound c.inbound soon in
    let cb = collision_in_first r.local_id inn out t1 t2 c.inbound c.outbound soon in
    elim (Bool-cases (bytes_ltb peer r.local_id)) [
      | inl e ↦ (ground (arith, c.out_peer, c.inn_peer), ground (arith, c.out_peer, c.inn_peer))
      | inr e ↦ (ground (arith, c.out_peer, c.inn_peer), ground (arith, c.out_peer, c.inn_peer))
    ]

-- Two nodes that have dialled each other keep the same connection. `x` was opened by node A and
-- `y` by node B; each node adds both within the window, in an order and at times of its own, to
-- an open registry that has no session of the other and does not know either connection as dead.
pub agreement :
    (ra rb : Registry) (xa ya xb yb : Session) (s1 s2 t1 t2 : ℕ)
    → Crossing ra rb.local_id xa ya
    → Crossing rb ra.local_id yb xb
    → xa.handle ≡ xb.handle
    → ya.handle ≡ yb.handle
    → s2 - s1 < collision_window
    → t2 - t1 < collision_window
    → let at_a = stored_handle rb.local_id in
      let at_b = stored_handle ra.local_id in
      let a1 = at_a (add s2 ya (add s1 xa ra).1).1 in
      let a2 = at_a (add s2 xa (add s1 ya ra).1).1 in
      let b1 = at_b (add t2 yb (add t1 xb rb).1).1 in
      let b2 = at_b (add t2 xb (add t1 yb rb).1).1 in
      (a1 ≡ b1) × (a1 ≡ b2) × (a2 ≡ b1) × (a2 ≡ b2) × (a1 ≢ none)
agreement ra rb xa ya xb yb s1 s2 t1 t2 ca cb x y sa sb =
    let (a1, a2) = tie_break_lem ra rb.local_id xa ya s1 s2 ca sa in
    let (b2, b1) = tie_break_lem rb ra.local_id yb xb t1 t2 cb sb in
    let same : (winner ra rb.local_id xa ya).handle ≡ (winner rb ra.local_id yb xb).handle =
      ground (arith, bytes_ltb_flip rb.local_id ra.local_id (ca.other)) in
    let e = ap some same in
    (a1 ∙ e ∙ sym b1, a1 ∙ e ∙ sym b2, a2 ∙ e ∙ sym b1, a2 ∙ e ∙ sym b2, λ n. cc (sym a1 ∙ n))
