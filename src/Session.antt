-- ===== src/Session.antt =====
-- pkg/mesh/session/registry.go: the sessions of a node, one for each peer. Each method is one
-- step, since it holds the lock from its first read to its last write; the closing of connections
-- after the lock is released is part of the step, and only adds to what is closed.
pub mod Collision
pub mod Invariant
pub mod History
pub mod Tests
use liberator_node_go.Prelude.{
  ℕ, zero, suc, ◌+◌, ◌-◌, ◌*◌, ◌/◌, ◌%◌, ◌^◌, ◌≤◌, ◌<◌, bit_and, bit_or, ◌≡◌, refl, sym, ap, subst,
  ◌∙◌, ◌≢◌, ◌↔◌, ◌⊎◌, inl, inr, Bool, true, false, not, ◌&&◌, ◌||◌, Option, none, some, List, [],
  ◌∷◌, ◌++◌, map, arith, if◌then◌else◌, ltb, leb, ◌==◌, bool_beq, bytes_ltb, bytes_ltb_flip,
  bytes_ltb_irrefl, Bytes, codes, bytes_beq, bytes_beq_iff, keep, length, nat_eq, bytes_eq, ==_iff,
  Bool-cases, Option-cases, In, All,
}
use liberator_node_go.Prelude.Map.{get, put, erase}

-- Session, with what the registry asks of its connection: who opened it. `handle` tells the
-- pointers apart; a session given to Add has a connection (no nil).
pub record Session : Type 0 where
  pub handle : ℕ
  pub peer_id : Bytes
  pub initiator : Bool
  pub added_at : ℕ

-- sessionRegistry; `dead` holds the connections that were closed, by either side; a
-- subscriber is a channel, the size of its buffer and what waits in it.
pub record Registry : Type 0 where
  pub local_id : Bytes
  pub sessions : List (Bytes × Session)
  pub subs : List (ℕ × ℕ × List Session)
  pub closed : Bool
  pub dead : List ℕ

-- The errors of Add.
pub data AddError : Type 0 where
  invalid self_connection registry_closed tie_break duplicate_outbound : AddError

-- collisionWindow, in nanoseconds
abbrev pub collision_window : ℕ
collision_window = 10 * 1000000000

-- NewRegistry
unfoldable pub new : Bytes → Registry
new local_id = record { local_id = local_id; sessions = []; subs = []; closed = false; dead = [] }

unfoldable pub is_dead : ℕ → List ℕ → Bool
is_dead h [] = false
is_dead h (x ∷ xs) = x == h || is_dead h xs

-- The answer of Add to a live session with the same peer, at the time `now`.
unfoldable pub collision : ℕ → Bytes → Session → Session → Option AddError
collision now local_id old s =
    if ltb (now - old.added_at) collision_window
    then (let keep_outbound = bytes_ltb s.peer_id local_id in
        if bool_beq old.initiator keep_outbound || not (bool_beq s.initiator keep_outbound)
        then some tie_break
        else none)
    else if s.initiator
    then some duplicate_outbound
    else none

-- The session is offered to a subscriber with room in its buffer of `size` entries.
unfoldable pub offer : Session → (ℕ × ℕ × List Session) → (ℕ × ℕ × List Session)
offer s (ch, size, queue) =
    if ltb (length queue) size then (ch, size, queue ++ s ∷ []) else (ch, size, queue)

-- closeSession
unfoldable pub close_session : Session → Registry → Registry
close_session s r = record r { dead = s.handle ∷ r.dead }

-- The end of Add: the session is stored and announced.
unfoldable pub store : ℕ → Session → Registry → Registry
store now s r =
    let s' : Session = record s { added_at = now } in
    record r { sessions = put s.peer_id s' r.sessions; subs = map (offer s') r.subs }

-- Add at the time `now`
unfoldable pub add : ℕ → Session → Registry → Option AddError × Registry
add now s r =
    if bytes_beq s.peer_id []
    then (some invalid, r)
    else if bytes_beq s.peer_id r.local_id
    then (some self_connection, r)
    else if r.closed
    then (some registry_closed, r)
    else elim (get s.peer_id r.sessions) [
      | none ↦ (none, store now s r)
      | some old ↦
          if is_dead old.handle r.dead
          then (none, close_session old (store now s r))
          else elim (collision now r.local_id old s) [
            | some e ↦ (some e, r)
            | none ↦ (none, close_session old (store now s r))
          ]
    ]

-- Remove
unfoldable pub remove : Session → Registry → Registry
remove s r = if bytes_beq s.peer_id [] then r else elim (get s.peer_id r.sessions) [
  | none ↦ r
  | some current ↦
      if current.handle == s.handle
      then close_session s (record r { sessions = erase s.peer_id r.sessions })
      else r
]

unfoldable pub close_all : List (Bytes × Session) → Registry → Registry
close_all [] r = r
close_all ((id, s) ∷ rest) r = close_all rest (close_session s r)

-- Close
unfoldable pub close : Registry → Registry
close r =
    if r.closed
    then r
    else close_all r.sessions (record r { closed = true; sessions = []; subs = [] })

-- Get and ListActive
unfoldable pub get_session : Bytes → Registry → Option Session
get_session id r = get id r.sessions

unfoldable pub list_active : Registry → List Session
list_active r = map (λ ks. ks.1) r.sessions

-- SubscribeNewSessions with the new channel `ch`: it gets the sessions there are. A closed
-- registry hands out a closed channel, which is not kept.
unfoldable pub subscribe : ℕ → Registry → Registry
subscribe ch r =
    if r.closed
    then r
    else record r { subs = (ch, length r.sessions + 100, list_active r) ∷ r.subs }

-- The context of a connection ends: the other side closed it, or QUIC gave it up.
unfoldable pub drop : ℕ → Registry → Registry
drop h r = record r { dead = h ∷ r.dead }
