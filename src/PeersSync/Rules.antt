-- ===== src/PeersSync/Rules.antt =====
-- pkg/mesh/peerssync: the firewall rules of the other nodes (syncRules and the handlers of
-- syncer.go, the events of server.go). The log lines of syncer.go have no effect.
pub mod Owner
pub mod Contents
use liberator_node_go.Prelude.{
  ℕ, zero, suc, ◌+◌, ◌-◌, ◌*◌, ◌/◌, ◌%◌, ◌^◌, ◌≤◌, ◌<◌, bit_and, bit_or, bit_xor, ◌≡◌, refl, sym,
  ap, subst, ◌∙◌, ◌≢◌, ◌↔◌, ◌⊎◌, inl, inr, Bool, true, false, not, ◌&&◌, ◌||◌, Option, none, some,
  List, [], ◌∷◌, ◌++◌, map, arith, if◌then◌else◌, ltb, leb, ◌==◌, bool_beq, bytes_ltb,
  bytes_ltb_flip, bytes_ltb_irrefl, Bytes, codes, bytes_beq, bytes_beq_iff, keep, length, nat_eq,
  bytes_eq, ==_iff, Bool-cases, Option-cases, In, All,
}
use liberator_node_go.Prelude.Map.{get, put}
use liberator_node_go.Firewall.Types.{PortRuleIndex, PortRule, RuleDump}
use liberator_node_go.Router
use liberator_node_go.Router.{Router, FirewallEvent, FirewallEventType, rule_added, rule_removed}

-- proto.ClientRule; the ports are uint32.
pub record ClientRule : Type 0 where
  pub node_id : Bytes
  pub id : ℕ
  pub addr : ℕ
  pub target_addr : Option ℕ
  pub protocol : Bytes
  pub port_range_start : ℕ
  pub port_range_end : Option ℕ

-- proto.ClientRuleEventType and proto.ClientRuleEvent
pub data ClientRuleEventType : Type 0 where
  rule_sync_event rule_added_event rule_removed_event : ClientRuleEventType

pub record ClientRuleEvent : Type 0 where
  pub kind : ClientRuleEventType
  pub update : Option ClientRule
  pub dump : List ClientRule

abbrev pub index_of : ClientRule → PortRuleIndex
index_of ev = record { node_id = ev.node_id; rule_id = ev.id }

-- The conversion uint16(v) of an optional port.
unfoldable pub truncate_port : Option ℕ → Option ℕ
truncate_port none = none
truncate_port (some p) = some (p % 2 ^ 16)

-- The rule of addRemoteRuleObject; AddRule fills its index.
unfoldable pub rule_of : ClientRule → PortRule
rule_of ev = record {
  index = record { node_id = []; rule_id = 0 };
  address = ev.addr;
  target_address = ev.target_addr;
  protocol = ev.protocol;
  port_range_start = ev.port_range_start % 2 ^ 16;
  port_range_end = truncate_port ev.port_range_end;
}

-- addRemoteRuleObject
unfoldable pub add_remote_rule_object : Bytes → ClientRule → Router → Router
add_remote_rule_object local ev r =
    if bytes_beq ev.node_id local
    then r
    else (Router.add_remote_rule (index_of ev) (rule_of ev) r).1

-- deleteRemoteRuleObject
unfoldable pub delete_remote_rule_object : ClientRule → Router → Router
delete_remote_rule_object ev r = (Router.remove_remote_rule (index_of ev) r).1

-- syncRuleObject
unfoldable pub sync_rule_object : Bytes → ClientRule → Router → Router
sync_rule_object local ev r =
    if Router.exists_rule (index_of ev) r then r else add_remote_rule_object local ev r

-- The first loop of syncRules: the map `alive` and the router.
unfoldable pub merge_rules :
    Bytes → Bytes → List ClientRule → List (ℕ × Bool) × Router → List (ℕ × Bool) × Router
merge_rules local peer [] s = s
merge_rules local peer (ev ∷ evs) (alive, r) = merge_rules local peer evs (
  (if bytes_beq ev.node_id peer then put ev.id true alive else alive),
  sync_rule_object local ev r,
)

-- The second loop of syncRules, over the dump of the firewall.
unfoldable pub sweep_rules : Bytes → List (ℕ × Bool) → List RuleDump → Router → Router
sweep_rules peer alive [] r = r
sweep_rules peer alive (d ∷ ds) r = sweep_rules peer alive ds (
    if not (bytes_beq d.node_id peer) then r else elim (get d.rule_id alive) [
      | some found ↦ r
      | none ↦ (Router.remove_remote_rule (record { node_id = peer; rule_id = d.rule_id }) r).1
    ])

-- syncRules
unfoldable pub sync_rules : Bytes → Bytes → List ClientRule → Router → Router
sync_rules local peer dump r =
    let (alive, r') = merge_rules local peer dump ([], r) in
    sweep_rules peer alive (Router.dump_rules r') r'

-- The body of the receive loop of streamPeerRulesData.
unfoldable pub handle_rule_event : Bytes → Bytes → ClientRuleEvent → Router → Router
handle_rule_event local peer ev r = elim ev.kind [
  | rule_sync_event ↦ sync_rules local peer ev.dump r
  | rule_added_event ↦ elim ev.update [ none ↦ r | some c ↦ add_remote_rule_object local c r ]
  | rule_removed_event ↦ elim ev.update [ none ↦ r | some c ↦ delete_remote_rule_object c r ]
]

-- generateFirewallEvent
unfoldable pub generate_firewall_event : FirewallEvent → ClientRuleEvent
generate_firewall_event update = elim update.kind [
  | rule_added ↦ record {
    kind = rule_added_event;
    update = some (record {
      node_id = update.node_id;
      id = update.rule_id;
      addr = update.address;
      target_addr = update.target_address;
      protocol = update.protocol;
      port_range_start = update.port_range_start;
      port_range_end = update.port_range_end;
    });
    dump = [];
  }
  | rule_removed ↦ record {
    kind = rule_removed_event;
    update = some (record {
      node_id = update.node_id;
      id = update.rule_id;
      addr = 0;
      target_addr = none;
      protocol = [];
      port_range_start = 0;
      port_range_end = none;
    });
    dump = [];
  }
]

-- The loop of buildFirewallSyncEvent.
unfoldable pub dump_client_rules : List RuleDump → List ClientRule
dump_client_rules [] = []
dump_client_rules (p ∷ ps) =
    record {
      node_id = p.node_id;
      id = p.rule_id;
      addr = p.address;
      target_addr = p.target_address;
      protocol = p.protocol;
      port_range_start = p.port_range_start;
      port_range_end = p.port_range_end;
    }
    ∷ dump_client_rules ps

-- buildFirewallSyncEvent
unfoldable pub build_firewall_sync_event : Router → ClientRuleEvent
build_firewall_sync_event r = record {
  kind = rule_sync_event;
  update = none;
  dump = dump_client_rules (Router.dump_rules r);
}
