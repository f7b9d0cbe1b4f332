-- ===== src/Session/History.antt =====
-- The registry of pkg/mesh/session/registry.go over any sequence of calls.
use liberator_node_go.Prelude.{
  ℕ, sym, subst, inl, inr, List, [], ◌∷◌, Bytes, nat_eq, bytes_eq, Bool-cases,
}
use liberator_node_go.Prelude.Map.{get}
use liberator_node_go.Session.{Session, Registry, new, add, remove, close, subscribe, drop}
use liberator_node_go.Session.Invariant.{
  IsSound, IsSound-dead, add-IsSound, remove-IsSound, closed_stays, close-IsSound,
}

-- The calls on a registry, and the end of a connection, which the network may bring at any time.
pub data Call : Type 0 where
  adds : ℕ → Session → Call
  removes : Session → Call
  subscribes : ℕ → Call
  drops : ℕ → Call
  closes : Call

pub step : Registry → Call → Registry
step r (adds now s) = (add now s r).1
step r (removes s) = remove s r
step r (subscribes ch) = subscribe ch r
step r (drops h) = drop h r
step r closes = close r

pub run : Registry → List Call → Registry
run r [] = r
run r (c ∷ cs) = run (step r c) cs

step-IsSound : (r : Registry) (c : Call) → IsSound r → IsSound (step r c)
unfolding step subscribe drop
step-IsSound r (adds now s) v = add-IsSound now s r v
step-IsSound r (removes s) v = remove-IsSound s r v
step-IsSound r (subscribes ch) v = elim (Bool-cases r.closed) [
  | inl c ↦ subst IsSound (sym ((closed_stays r c).1 ch)) v
  | inr c ↦
      rw (c, subscribe)
        (record { keys = v.keys; own_peer = v.own_peer; empty_if_closed = λ t. absurd (cc) })
]
step-IsSound r (drops h) v = IsSound-dead r _ v
step-IsSound r closes v = close-IsSound r v

run-IsSound : (r : Registry) (cs : List Call) → IsSound r → IsSound (run r cs)
unfolding run
run-IsSound r [] v = v
run-IsSound r (c ∷ cs) v = run-IsSound (step r c) cs (step-IsSound r c v)

new-IsSound : (local_id : Bytes) → IsSound (new local_id)
unfolding new get
new-IsSound local_id = record {
  keys = tt;
  own_peer = λ id s g. absurd (cc);
  empty_if_closed = λ c. absurd (cc);
}

-- After any sequence of calls on a new registry, with connections that end at any time, there is
-- at most one session for each peer, stored under the peer's id, none with the node itself, and
-- none at all once the registry is closed.
pub run-new-IsSound : (local_id : Bytes) (cs : List Call) → IsSound (run (new local_id) cs)
run-new-IsSound local_id cs = run-IsSound (new local_id) cs (new-IsSound local_id)
