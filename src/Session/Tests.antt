-- ===== src/Session/Tests.antt =====
-- Two nodes that dial each other at once.
use liberator_node_go.Prelude.{
  ℕ, ◌-◌, ◌<◌, ◌≡◌, refl, ◌≢◌, true, false, none, List, [], ◌∷◌, arith, codes, nat_eq, bytes_eq,
}
use liberator_node_go.Prelude.Map.{get}
use liberator_node_go.Session.{Session, Registry, new, add, is_dead, collision_window}
use liberator_node_go.Session.Collision.{Crossing, stored_handle, agreement}
use liberator_node_go.Session.Invariant.{IsSound, AddOutcome, add_lem}
use liberator_node_go.Session.History.{Call, adds, removes, drops, run, run-new-IsSound}

abbrev node_a : Registry
node_a = record { local_id = codes "node-a"; sessions = []; subs = []; closed = false; dead = [] }

abbrev node_b : Registry
node_b = record { local_id = codes "node-b"; sessions = []; subs = []; closed = false; dead = [] }

-- Connection 1 was opened by node A, connection 2 by node B.
abbrev one_at_a : Session
one_at_a = record { handle = 1; peer_id = codes "node-b"; initiator = true; added_at = 0 }

abbrev two_at_a : Session
two_at_a = record { handle = 2; peer_id = codes "node-b"; initiator = false; added_at = 0 }

abbrev one_at_b : Session
one_at_b = record { handle = 1; peer_id = codes "node-a"; initiator = false; added_at = 0 }

abbrev two_at_b : Session
two_at_b = record { handle = 2; peer_id = codes "node-a"; initiator = true; added_at = 0 }

Crossing-a : Crossing node_a node_b.local_id one_at_a two_at_a
unfolding get is_dead
Crossing-a = record {
  named = λ e. cc;
  other = λ e. ground arith;
  is_open = refl;
  fresh = refl;
  out_peer = refl;
  inn_peer = refl;
  outbound = refl;
  inbound = refl;
  out_alive = refl;
  inn_alive = refl;
}

Crossing-b : Crossing node_b node_a.local_id two_at_b one_at_b
unfolding get is_dead
Crossing-b = record {
  named = λ e. cc;
  other = λ e. ground arith;
  is_open = refl;
  fresh = refl;
  out_peer = refl;
  inn_peer = refl;
  outbound = refl;
  inbound = refl;
  out_alive = refl;
  inn_alive = refl;
}

abbrev early : ℕ
early = 1000

abbrev late : ℕ
late = 5000

soon : late - early < collision_window
soon = omega arith

agreement_example :
    let at_a = stored_handle node_b.local_id in
    let at_b = stored_handle node_a.local_id in
    let a1 = at_a (add late two_at_a (add early one_at_a node_a).1).1 in
    let a2 = at_a (add late one_at_a (add early two_at_a node_a).1).1 in
    let b1 = at_b (add late two_at_b (add early one_at_b node_b).1).1 in
    let b2 = at_b (add late one_at_b (add early two_at_b node_b).1).1 in
    (a1 ≡ b1) × (a1 ≡ b2) × (a2 ≡ b1) × (a2 ≡ b2) × (a1 ≢ none)
agreement_example =
    agreement node_a node_b one_at_a two_at_a one_at_b two_at_b early late early late Crossing-a
      Crossing-b refl refl soon soon

abbrev calls : List Call
calls = adds early one_at_a ∷ adds late two_at_a ∷ drops 2 ∷ removes one_at_a ∷ []

run-new-IsSound_example : IsSound (run (new (codes "node-a")) calls)
run-new-IsSound_example = run-new-IsSound (codes "node-a") calls

add_lem_example : AddOutcome early one_at_a node_a (add early one_at_a node_a)
add_lem_example = add_lem early one_at_a node_a

-- Node A with a session.
abbrev busy : Registry
busy = record node_a { sessions = (node_b.local_id, one_at_a) ∷ [] }
