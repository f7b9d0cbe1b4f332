-- ===== src/Session/Invariant.antt =====
-- What each method of the registry of pkg/mesh/session/registry.go does to the sessions.
use liberator_node_go.Prelude.{
  ℕ, ◌≡◌, refl, sym, ap, subst, ◌∙◌, ◌≢◌, ◌⊎◌, inl, inr, true, false, none, some, List, [], ◌∷◌,
  arith, ◌==◌, Option, Bytes, bytes_beq, bytes_beq_iff, nat_eq, bytes_eq, Bool-cases, Option-cases,
  In,
}
use liberator_node_go.Prelude.Map.{
  get, put, erase, Keys, get-put, get-put_self, get-put_ne, get-erase, put-Keys, erase-Keys, get-In,
}
use liberator_node_go.Session.{
  Session, Registry, AddError, invalid, self_connection, registry_closed, collision, store, add,
  remove, close, close_all, close_session, subscribe, is_dead,
}

-- Every session stands under its peer's id, which is neither empty nor the node's own, and a
-- closed registry is empty.
pub record IsSound (r : Registry) : Type 0 where
  pub keys : Keys r.sessions
  pub own_peer :
      (id : Bytes) (s : Session)
      → get id r.sessions ≡ some s
      → (s.peer_id ≡ id) × (id ≢ []) × (id ≢ r.local_id)
  pub empty_if_closed : r.closed ≡ true → (r.sessions ≡ []) × (r.subs ≡ [])

-- What closing adds to the dead connections does not matter here.
pub IsSound-dead : (r : Registry) (dead : List ℕ) → IsSound r → IsSound (record r { dead = dead })
IsSound-dead r dead v = record {
  keys = v.keys;
  own_peer = v.own_peer;
  empty_if_closed = v.empty_if_closed;
}

store-IsSound :
    (now : ℕ) (s : Session) (r : Registry)
    → s.peer_id ≢ []
    → s.peer_id ≢ r.local_id
    → r.closed ≡ false
    → IsSound r
    → IsSound (store now s r)
unfolding store
store-IsSound now s r named other is_open v = record {
  keys = put-Keys s.peer_id _ r.sessions v.keys;
  own_peer = λ id t g. own id t g;
  empty_if_closed = λ c. cc (is_open, c);
}
  where
    own :
        (id : Bytes) (t : Session)
        → get id (put s.peer_id (record s { added_at = now }) r.sessions) ≡ some t
        → (t.peer_id ≡ id) × (id ≢ []) × (id ≢ r.local_id)
    own id t g = elim (Bool-cases (bytes_beq s.peer_id id)) [
      | inl e ↦
          let q = (bytes_beq_iff s.peer_id id).0 e in
          let w : record s { added_at = now } ≡ t =
            ground (arith, get-put s.peer_id id (record s { added_at = now }) r.sessions) in
          (sym (ap (λ (x : Session). x.peer_id) w) ∙ q, λ n. named (q ∙ n), λ n. other (q ∙ n))
      | inr e ↦
          v.own_peer id t
            (ground (arith, get-put s.peer_id id (record s { added_at = now }) r.sessions))
    ]

-- Why Add refuses a session, in the order of its tests.
abbrev pub Refused : ℕ → Session → Registry → AddError → Type 0
Refused now s r e =
    ((s.peer_id ≡ []) × (e ≡ invalid))
    ⊎ ((s.peer_id ≢ []) × (s.peer_id ≡ r.local_id) × (e ≡ self_connection))
    ⊎ ((s.peer_id ≢ []) × (s.peer_id ≢ r.local_id) × (r.closed ≡ true) × (e ≡ registry_closed))
    ⊎ ((s.peer_id ≢ [])
        × (s.peer_id ≢ r.local_id)
        × (r.closed ≡ false)
        × ((old : Session) × (get s.peer_id r.sessions ≡ some old)
            × (is_dead old.handle r.dead ≡ false)
            × (collision now r.local_id old s ≡ some e)))

-- The outcomes of Add: it refuses and changes nothing, or it stores the session, and closes an
-- older one of the same peer.
pub add_cases :
    (now : ℕ) (s : Session) (r : Registry)
    → ((e : AddError) × Refused now s r e × (add now s r ≡ (some e, r)))
      ⊎ ((s.peer_id ≢ [])
          × (s.peer_id ≢ r.local_id)
          × (r.closed ≡ false)
          × (((get s.peer_id r.sessions ≡ none) × (add now s r ≡ (none, store now s r)))
              ⊎ ((old : Session) × (get s.peer_id r.sessions ≡ some old)
                  × ((is_dead old.handle r.dead ≡ true) ⊎ (collision now r.local_id old s ≡ none))
                  × (add now s r ≡ (none, close_session old (store now s r))))))
unfolding add
add_cases now s r = elim (Bool-cases (bytes_beq s.peer_id [])) [
  | inl e ↦ inl (invalid, inl ((bytes_beq_iff s.peer_id []).0 e, refl), rw (e, add))
  | inr e ↦
      let named : s.peer_id ≢ [] = λ q. cc (e, (bytes_beq_iff s.peer_id []).1 q) in
      elim (Bool-cases (bytes_beq s.peer_id r.local_id)) [
        | inl f ↦ inl (
          self_connection,
          inr (inl (named, (bytes_beq_iff s.peer_id r.local_id).0 f, refl)),
          rw (e, add, f),
        )
        | inr f ↦
            let other : s.peer_id ≢ r.local_id =
              λ q. cc (f, (bytes_beq_iff s.peer_id r.local_id).1 q) in
            elim (Bool-cases r.closed) [
              | inl c ↦ inl (registry_closed, inr (inr (inl (named, other, c, refl))), ground arith)
              | inr c ↦ elim (Option-cases (get s.peer_id r.sessions)) [
                | inl g ↦ inr (named, other, c, inl (g, ground arith))
                | inr (old, g) ↦ elim (Bool-cases (is_dead old.handle r.dead)) [
                  | inl d ↦ inr (named, other, c, inr (old, g, inl d, ground arith))
                  | inr d ↦ elim (Option-cases (collision now r.local_id old s)) [
                    | inl k ↦ inr (named, other, c, inr (old, g, inr k, ground arith))
                    | inr (x, k) ↦
                        inl (x, inr (inr (inr (named, other, c, (old, g, d, k)))), ground arith)
                  ]
                ]
              ]
            ]
      ]
]

-- What one call of Add does: the answer and the registry after it.
abbrev pub AddOutcome : ℕ → Session → Registry → Option AddError × Registry → Type 0
AddOutcome now s r (answer, r') =
    ((e : AddError) × Refused now s r e × (answer ≡ some e) × (r' ≡ r))
    ⊎ (((e : AddError) → ¬ Refused now s r e)
        × (answer ≡ none)
        × (get s.peer_id r'.sessions ≡ some (record s { added_at = now }))
        × ((id : Bytes) → id ≢ s.peer_id → get id r'.sessions ≡ get id r.sessions)
        × (r'.local_id ≡ r.local_id)
        × (r'.closed ≡ r.closed)
        × (((get s.peer_id r.sessions ≡ none) × (r'.dead ≡ r.dead))
            ⊎ ((old : Session) × (get s.peer_id r.sessions ≡ some old)
                × ((is_dead old.handle r.dead ≡ true) ⊎ (collision now r.local_id old s ≡ none))
                × (r'.dead ≡ old.handle ∷ r.dead))))

-- Add refuses exactly for one of these reasons, with the error of the first that holds, and then
-- leaves the registry as it was: the peer's id is empty, it is the node's own, the registry is
-- closed, or there is a live session of that peer and the collision test refuses the new one. Else
-- Add stores the session under its peer with the time of the call; an older session of that peer,
-- which was dead or which the collision test gave up, is closed. No other session is touched: all others stay stored, and no
-- other connection is closed.
pub add_lem : (now : ℕ) (s : Session) (r : Registry) → AddOutcome now s r (add now s r)
unfolding store close_session
add_lem now s r = elim (add_cases now s r) [
  | inl (x, why, e) ↦ rw e (inl (x, why, refl, refl))
  | inr (named, other, c, inl (g, e)) ↦ rw e (
      inr (
        λ x why. ground arith,
        refl,
        get-put_self s.peer_id _ r.sessions,
        λ id n. get-put_ne s.peer_id id _ r.sessions (λ q. n (sym q)),
        refl,
        refl,
        inl (g, refl),
      ))
  | inr (named, other, c, inr (old, g, why, e)) ↦ rw e (
      inr (
        λ x no. ground arith,
        refl,
        get-put_self s.peer_id _ r.sessions,
        λ id n. get-put_ne s.peer_id id _ r.sessions (λ q. n (sym q)),
        refl,
        refl,
        inr (old, g, why, refl),
      ))
]

pub add-IsSound : (now : ℕ) (s : Session) (r : Registry) → IsSound r → IsSound (add now s r).1
add-IsSound now s r v = elim (add_cases now s r) [
  | inl (x, why, e) ↦ rw e v
  | inr (named, other, c, inl (g, e)) ↦ rw e (store-IsSound now s r named other c v)
  | inr (named, other, c, inr (old, g, why, e)) ↦ rw e (
      unfold close_session in
      IsSound-dead (store now s r) _ (store-IsSound now s r named other c v))
]

pub remove-IsSound : (s : Session) (r : Registry) → IsSound r → IsSound (remove s r)
unfolding remove close_session
remove-IsSound s r v = elim (Bool-cases (bytes_beq s.peer_id [])) [
  | inl e ↦ rw (e, remove) v
  | inr e ↦ elim (Option-cases (get s.peer_id r.sessions)) [
    | inl g ↦ rw (e, remove, g) v
    | inr (current, g) ↦ elim (Bool-cases (current.handle == s.handle)) [
      | inr h ↦ rw (e, remove, g, h) v
      | inl h ↦
          rw (e, remove, g, h)
            (record {
              keys = erase-Keys s.peer_id r.sessions v.keys;
              own_peer =
                  λ id t k. v.own_peer id t (ground (arith, get-erase s.peer_id id r.sessions));
              empty_if_closed = λ c.
                  let (none_, subs) = v.empty_if_closed c in
                  (rw none_ (unfold erase in refl), subs);
            })
    ]
  ]
]

close_all_frame :
    (l : List (Bytes × Session)) (r : Registry)
    → ((close_all l r).sessions ≡ r.sessions)
      × ((close_all l r).subs ≡ r.subs)
      × ((close_all l r).closed ≡ r.closed)
      × ((h : ℕ) → In h r.dead → In h (close_all l r).dead)
unfolding close_all close_session
close_all_frame [] r = (refl, refl, refl, λ h m. m)
close_all_frame ((id, s) ∷ rest) r =
    let (a, b, c, d) = close_all_frame rest (record r { dead = s.handle ∷ r.dead }) in
    (a, b, c, λ h m. d h (inr m))

close_all-dead :
    (l : List (Bytes × Session)) (r : Registry) (id : Bytes) (s : Session)
    → In (id, s) l
    → In s.handle (close_all l r).dead
unfolding close_all close_session
close_all-dead [] r id s m = elim m [ ]
close_all-dead ((j, t) ∷ rest) r id s (inl e) =
    let (a, b, c, d) = close_all_frame rest (record r { dead = t.handle ∷ r.dead }) in
    d s.handle (inl (ap (λ (x : Bytes × Session). x.1.handle) e))
close_all-dead ((j, t) ∷ rest) r id s (inr m) = close_all-dead rest _ id s m

-- Close of an open registry leaves a closed registry with no session and no subscriber, and every session that was
-- stored has its connection closed.
pub close_lem :
    (r : Registry)
    → r.closed ≡ false
    → ((close r).closed ≡ true)
      × ((close r).sessions ≡ [])
      × ((close r).subs ≡ [])
      × ((id : Bytes) (s : Session) → get id r.sessions ≡ some s → In s.handle (close r).dead)
unfolding close
close_lem r c =
    let emptied = record r { closed = true; sessions = []; subs = [] } in
    let (a, b, d, e) = close_all_frame r.sessions emptied in
    rw (c, close)
      (d, a, b, λ id s g. close_all-dead r.sessions emptied id s (get-In id s r.sessions g))

pub closed_stays :
    (r : Registry) → r.closed ≡ true → (close r ≡ r) × ((ch : ℕ) → subscribe ch r ≡ r)
unfolding close subscribe
closed_stays r c = (ground arith, λ ch. ground arith)

pub close-IsSound : (r : Registry) → IsSound r → IsSound (close r)
close-IsSound r v = elim (Bool-cases r.closed) [
  | inl c ↦ subst IsSound (sym (closed_stays r c).0) v
  | inr c ↦
      let (a, b, d, e) = close_lem r c in
      record {
        keys = rw b tt;
        own_peer = λ id s g. absurd (unfold get in cc (rw b at g));
        empty_if_closed = λ _. (b, d);
      }
]
