-- ===== src/Firewall/Tests.antt =====
-- The firewall on a small network: two rules, a reply's hole, and a revocation.
use liberator_node_go.Prelude.{
  ℕ, ◌+◌, ◌*◌, ◌^◌, ◌<◌, ◌≡◌, refl, ◌↔◌, ◌⊎◌, true, false, none, some, List, [], ◌∷◌, arith, codes,
  length, nat_eq, bytes_eq, In,
}
use liberator_node_go.Prelude.Map.{get, put, erase}
use liberator_node_go.Dgmessage.{HoleInfo}
use liberator_node_go.Firewall.Types.{PortRuleIndex, PortRule, Firewall}
use liberator_node_go.Firewall.Keys.{make_global_key, flow_key}
use liberator_node_go.Firewall.{
  new, get_short_id, get_or_create_short_id, ids_at, link_rule, insert_rule, add_rule, rule_at,
  target_allows, port_allows, icmp_loop, port_loop, rules_allow, drop_unauthorized_holes,
  unlink_rule, remove_rule, rule_check, holepunch,
}
use liberator_node_go.Firewall.FlowKey.{SameFlow, flow_key_iff}
use liberator_node_go.Firewall.Rules.{Permitted}
use liberator_node_go.Firewall.Holes.{
  OpenHole, rule_check_iff, holes-remove_rule, rule_check-remove_rule,
}
use liberator_node_go.Firewall.Registry.Add.{Added, add_rule-Added}
use liberator_node_go.Firewall.Registry.Remove.{Removed, remove_rule-Removed}
use liberator_node_go.Firewall.History.{Call, adds, punches, step, run, IsGood, run-new-IsGood}

abbrev server : ℕ
server = 10 * 2 ^ 24 + 1

abbrev visitor : ℕ
visitor = 10 * 2 ^ 24 + 2

abbrev web : PortRuleIndex
web = record { node_id = codes "node-a"; rule_id = 1 }

abbrev game : PortRuleIndex
game = record { node_id = codes "node-b"; rule_id = 1 }

abbrev web_rule : PortRule
web_rule = record {
  index = record { node_id = []; rule_id = 0 };
  address = server;
  target_address = none;
  protocol = codes "tcp";
  port_range_start = 80;
  port_range_end = none;
}

abbrev game_rule : PortRule
game_rule = record {
  index = record { node_id = []; rule_id = 0 };
  address = server;
  target_address = some visitor;
  protocol = codes "both";
  port_range_start = 4000;
  port_range_end = some 4010;
}

abbrev request : HoleInfo
request = record {
  src_ip = visitor;
  dst_ip = server;
  src_port = 5555;
  dst_port = 80;
  protocol = codes "tcp";
}

abbrev reply : HoleInfo
reply = record {
  src_ip = server;
  dst_ip = visitor;
  src_port = 80;
  dst_port = 5555;
  protocol = codes "tcp";
}

abbrev calls : List Call
calls = adds web web_rule ∷ adds game game_rule ∷ punches 100 request 50 ∷ []

abbrev network : Firewall
network = run new calls

few_calls : length calls < 2 ^ 16
few_calls = omega arith

network-IsGood : IsGood 3 network
network-IsGood = run-new-IsGood calls few_calls

run-new-IsGood_example : IsGood 3 network
run-new-IsGood_example = run-new-IsGood calls few_calls

rule_check_iff_example :
    ((rule_check 120 reply network).0 ≡ true)
    ↔ (OpenHole 120 reply network ⊎ Permitted network reply)
rule_check_iff_example = rule_check_iff 120 reply network network-IsGood.indexed

test_request : rules_allow request network ≡ true
unfolding step run new add_rule get_or_create_short_id insert_rule link_rule ids_at get put
    holepunch rules_allow port_loop rule_at target_allows port_allows make_global_key icmp_loop
test_request = refl

-- The network with the rule of the web server only, and the hole that it let through.
abbrev single_calls : List Call
single_calls = adds web web_rule ∷ punches 100 request 50 ∷ []

abbrev single : Firewall
single = run new single_calls

few_single_calls : length single_calls < 2 ^ 16
few_single_calls = omega arith

single-IsGood : IsGood 2 single
single-IsGood = run-new-IsGood single_calls few_single_calls

web_removed : (remove_rule web single).0 ≡ true
unfolding step run new add_rule get_or_create_short_id insert_rule link_rule ids_at get put
    holepunch make_global_key remove_rule get_short_id
web_removed = refl

no_rule_left : (remove_rule web single).1.rules_by_id ≡ []
unfolding step run new add_rule get_or_create_short_id insert_rule link_rule ids_at get put
    holepunch make_global_key remove_rule get_short_id unlink_rule erase drop_unauthorized_holes
no_rule_left = refl

nothing-Permitted : (i : HoleInfo) → ¬ Permitted (remove_rule web single).1 i
unfolding get
nothing-Permitted i (id, r, g, e, m) = let h : get id [] ≡ some r = rw no_rule_left at g in cc

holes-remove_rule_example :
    In (flow_key request, record { expire = 150; info = request }) (remove_rule web single).1.holes
    ↔ (In (flow_key request, record { expire = 150; info = request }) single.holes
        × Permitted (remove_rule web single).1 request)
holes-remove_rule_example =
    holes-remove_rule web single (flow_key request) (record { expire = 150; info = request })
      single-IsGood.indexed web_removed

rule_check-remove_rule_example : (rule_check 120 reply (remove_rule web single).1).0 ≡ false
rule_check-remove_rule_example =
    rule_check-remove_rule web single 120 reply single-IsGood.indexed single-IsGood.keyed
      web_removed (λ j s. nothing-Permitted j)

room_left : network.next_short_id + 1 < 2 ^ 16
room_left = let h = network-IsGood.few in omega arith

add_rule-Added_example :
    Added
      (record { node_id = codes "node-c"; rule_id = 7 })
      web_rule
      network
      (add_rule (record { node_id = codes "node-c"; rule_id = 7 }) web_rule network).0
      (add_rule (record { node_id = codes "node-c"; rule_id = 7 }) web_rule network).1
add_rule-Added_example =
    add_rule-Added (record { node_id = codes "node-c"; rule_id = 7 }) web_rule network
      network-IsGood.numbered room_left

remove_rule-Removed_example :
    Removed game network (remove_rule game network).0 (remove_rule game network).1
remove_rule-Removed_example = remove_rule-Removed game network network-IsGood.numbered

flow_key_iff_example : (flow_key request ≡ flow_key reply) ↔ SameFlow request reply
flow_key_iff_example = flow_key_iff request reply

abbrev first_id : ℕ
first_id = 1

abbrev second_id : ℕ
second_id = 2

abbrev rule_number : ℕ
rule_number = 5
