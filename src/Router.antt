-- ===== src/Router.antt =====
-- pkg/router: which addresses are let out (isForbiddenEgress of router.go), which worker takes a
-- packet (sharded.go), and the control plane: the routing table and the firewall with the events
-- that their local changes cause (events.go, routingtable_inherited.go, firewall_inherited.go).
pub mod Egress
pub mod Sharding
pub mod Mirror
pub mod Packets
pub mod Tests
use liberator_node_go.Prelude.{
  ℕ, zero, suc, ◌+◌, ◌-◌, ◌*◌, ◌/◌, ◌%◌, ◌^◌, ◌≤◌, ◌<◌, bit_and, bit_or, bit_xor, ◌≡◌, refl, sym,
  ap, subst, ◌∙◌, ◌≢◌, ◌↔◌, ◌⊎◌, inl, inr, Bool, true, false, not, ◌&&◌, ◌||◌, Option, none, some,
  List, [], ◌∷◌, ◌++◌, map, arith, if◌then◌else◌, ltb, leb, ◌==◌, bool_beq, bytes_ltb,
  bytes_ltb_flip, bytes_ltb_irrefl, Bytes, codes, bytes_beq, bytes_beq_iff, keep, length, nat_eq,
  bytes_eq, ==_iff, Bool-cases, Option-cases, In, All,
}
use liberator_node_go.Prelude.Map.{get, put, erase}
use liberator_node_go.RoutingTable
use liberator_node_go.RoutingTable.{Route, RecordDump, Table}
use liberator_node_go.Firewall
use liberator_node_go.Firewall.Types.{PortRuleIndex, PortRule, RuleDump, Firewall}

-- RouterEventType and RouterEvent
pub data RouterEventType : Type 0 where
  client_added client_removed : RouterEventType

pub record RouterEvent : Type 0 where
  pub kind : RouterEventType
  pub virtual_ip : ℕ
  pub node_id : Bytes

-- FirewallEventType and FirewallEvent
pub data FirewallEventType : Type 0 where
  rule_added rule_removed : FirewallEventType

pub record FirewallEvent : Type 0 where
  pub kind : FirewallEventType
  pub node_id : Bytes
  pub rule_id : ℕ
  pub address : ℕ
  pub target_address : Option ℕ
  pub protocol : Bytes
  pub port_range_start : ℕ
  pub port_range_end : Option ℕ

-- The control plane of Router; a subscriber is a channel with the events that wait in it.
pub record Router : Type 0 where
  pub table : Table
  pub firewall : Firewall
  pub routing_subs : List (ℕ × List RouterEvent)
  pub firewall_subs : List (ℕ × List FirewallEvent)

-- select { case ch <- event: default: } on a channel of 200 places
unfoldable pub offer : {E : Type 0} → E → ℕ × List E → ℕ × List E
offer event (ch, queue) = if ltb (length queue) 200 then (ch, queue ++ event ∷ []) else (ch, queue)

-- SubscribeRoutingEvents and its cancel function, on the channel `ch`
unfoldable pub subscribe_routing_events : ℕ → Router → Router
subscribe_routing_events ch r = record r { routing_subs = put ch [] r.routing_subs }

unfoldable pub cancel_routing_events : ℕ → Router → Router
cancel_routing_events ch r = record r { routing_subs = erase ch r.routing_subs }

-- notifyRoutingEvent
unfoldable pub notify_routing_event : RouterEvent → Router → Router
notify_routing_event event r = record r { routing_subs = map (offer event) r.routing_subs }

-- SubscribeFirewallEvents and its cancel function, on the channel `ch`
unfoldable pub subscribe_firewall_events : ℕ → Router → Router
subscribe_firewall_events ch r = record r { firewall_subs = put ch [] r.firewall_subs }

unfoldable pub cancel_firewall_events : ℕ → Router → Router
cancel_firewall_events ch r = record r { firewall_subs = erase ch r.firewall_subs }

-- notifyFirewallEvent
unfoldable pub notify_firewall_event : FirewallEvent → Router → Router
notify_firewall_event event r = record r { firewall_subs = map (offer event) r.firewall_subs }

-- AddRoutingObject
unfoldable pub add_routing_object : Route → Router → Bool × Router
add_routing_object obj r =
    let (ok, table) = RoutingTable.add obj r.table in
    let r' = record r { table = table } in
    if ok
    then (
      true,
      notify_routing_event
          (record { kind = client_added; virtual_ip = obj.virtual_ip; node_id = obj.node_id }) r',
    )
    else (false, r')

-- DeleteRoutingObject
unfoldable pub delete_routing_object : ℕ → Router → Router
delete_routing_object ip r = elim (RoutingTable.get_by_ip ip r.table) [
  | none ↦ r
  | some obj ↦
      notify_routing_event
        (record { kind = client_removed; virtual_ip = ip; node_id = obj.node_id })
        (record r { table = RoutingTable.delete ip r.table })
]

-- AddRemoteRoutingObject, DeleteRemoteRoutingObject, GetRemoteRoutingObject: no events
unfoldable pub add_remote_routing_object : Route → Router → Bool × Router
add_remote_routing_object obj r =
    let (ok, table) = RoutingTable.add obj r.table in (ok, record r { table = table })

unfoldable pub delete_remote_routing_object : ℕ → Router → Router
delete_remote_routing_object ip r = record r { table = RoutingTable.delete ip r.table }

unfoldable pub get_remote_routing_object : ℕ → Router → Option Route
get_remote_routing_object ip r = RoutingTable.get_by_ip ip r.table

-- DumpRoutingTable
unfoldable pub dump_routing_table : Router → List RecordDump
dump_routing_table r = RoutingTable.dump r.table

-- AddRule of firewall_inherited.go
unfoldable pub add_rule : PortRuleIndex → PortRule → Router → Bool × Router
add_rule index rule r =
    let (ok, fw) = Firewall.add_rule index rule r.firewall in
    let r' = record r { firewall = fw } in
    if ok
    then (
      true,
      notify_firewall_event
          (record {
            kind = rule_added;
            node_id = index.node_id;
            rule_id = index.rule_id;
            address = rule.address;
            target_address = rule.target_address;
            protocol = rule.protocol;
            port_range_start = rule.port_range_start;
            port_range_end = rule.port_range_end;
          })
          r',
    )
    else (false, r')

-- RemoveRule of firewall_inherited.go; the other fields of the event keep their zero values.
unfoldable pub remove_rule : PortRuleIndex → Router → Bool × Router
remove_rule index r =
    let (ok, fw) = Firewall.remove_rule index r.firewall in
    let r' = record r { firewall = fw } in
    if ok
    then (
      true,
      notify_firewall_event
          (record {
            kind = rule_removed;
            node_id = index.node_id;
            rule_id = index.rule_id;
            address = 0;
            target_address = none;
            protocol = [];
            port_range_start = 0;
            port_range_end = none;
          })
          r',
    )
    else (false, r')

-- AddRemoteRule, RemoveRemoteRule: no events; ExistsRule, DumpRules
unfoldable pub add_remote_rule : PortRuleIndex → PortRule → Router → Bool × Router
add_remote_rule index rule r =
    let (ok, fw) = Firewall.add_rule index rule r.firewall in (ok, record r { firewall = fw })

unfoldable pub remove_remote_rule : PortRuleIndex → Router → Bool × Router
remove_remote_rule index r =
    let (ok, fw) = Firewall.remove_rule index r.firewall in (ok, record r { firewall = fw })

unfoldable pub exists_rule : PortRuleIndex → Router → Bool
exists_rule index r = Firewall.exists_rule index r.firewall

unfoldable pub dump_rules : Router → List RuleDump
dump_rules r = Firewall.dump_rules r.firewall
