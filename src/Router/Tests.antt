-- ===== src/Router/Tests.antt =====
-- The router on concrete packets and addresses.
use liberator_node_go.Prelude.{
  ℕ, ◌+◌, ◌*◌, ◌/◌, ◌^◌, ◌≤◌, ◌<◌, ◌≡◌, refl, inr, List, [], ◌∷◌, arith, codes, length, nat_eq,
  bytes_eq,
}
use liberator_node_go.Dgmessage.{HoleInfo}
use liberator_node_go.Firewall
use liberator_node_go.Firewall.FlowKey.{IsIcmp}
use liberator_node_go.RoutingTable.{Route}
use liberator_node_go.Router.{Router, RouterEvent, subscribe_routing_events}
use liberator_node_go.Router.Egress.{
  is_forbidden_egress, blocks, any_contains, is_forbidden_egress_lem,
}
use liberator_node_go.Router.Sharding.{get_worker, get_worker-same}
use liberator_node_go.Router.Mirror.{Change, adds, deletes, run, Mirrors, run-Mirrors}

abbrev request : HoleInfo
request = record {
  src_ip = 10 * 2 ^ 24 + 2;
  dst_ip = 10 * 2 ^ 24 + 1;
  src_port = 5555;
  dst_port = 80;
  protocol = codes "tcp";
}

abbrev reply : HoleInfo
reply = record {
  src_ip = 10 * 2 ^ 24 + 1;
  dst_ip = 10 * 2 ^ 24 + 2;
  src_port = 80;
  dst_port = 5555;
  protocol = codes "tcp";
}

not-IsIcmp : ¬ IsIcmp request
not-IsIcmp e = ground arith

get_worker-same_example : (get_worker 4 request ≡ get_worker 4 reply) × (get_worker 4 request < 4)
get_worker-same_example =
    get_worker-same 4 request reply (omega arith) (refl, inr (refl, refl, inr (refl, refl)))
      (λ e. absurd (not-IsIcmp e))

abbrev carrier_nat : ℕ
carrier_nat = 100 * 2 ^ 24 + 64 * 2 ^ 16

carrier_nat_small : carrier_nat < 2 ^ 32
carrier_nat_small = omega arith

is_forbidden_egress_lem_example : is_forbidden_egress carrier_nat ≡ any_contains blocks carrier_nat
is_forbidden_egress_lem_example = is_forbidden_egress_lem carrier_nat carrier_nat_small

abbrev base : ℕ
base = 100 * 4 + 1

base_small : carrier_nat / 2 ^ 22 < 2 ^ 10
base_small = omega arith

abbrev empty : Router
empty = record { table = []; firewall = Firewall.new; routing_subs = []; firewall_subs = [] }

abbrev phone : Route
phone = record { handle = 1; node_id = codes "node-a"; virtual_ip = 10 * 2 ^ 24 + 2 }

abbrev changes : List Change
changes = adds phone ∷ adds phone ∷ deletes 7 ∷ deletes phone.virtual_ip ∷ []

few_changes : length changes ≤ 200
few_changes = omega arith

run-Mirrors_example :
    (queue : List RouterEvent) × Mirrors 3 queue (run (subscribe_routing_events 3 empty) changes)
run-Mirrors_example = run-Mirrors 3 empty changes refl few_changes
