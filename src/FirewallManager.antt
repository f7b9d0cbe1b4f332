-- ===== src/FirewallManager.antt =====
-- pkg/services/firewallmanager: the rules of this node's peers, in the database and in the
-- firewall. Each method takes which of its queries are carried out; a query that is not has no
-- effect and its error is returned. The firewall is what the interface of the package asks for.
pub mod Tests
pub mod Laws
pub mod Backed
pub mod Calls
pub mod Published
pub mod Restart
pub mod Engine
pub mod Listed
use liberator_node_go.Prelude.{
  ℕ, zero, suc, ◌+◌, ◌-◌, ◌*◌, ◌/◌, ◌%◌, ◌^◌, ◌≤◌, ◌<◌, bit_and, bit_or, bit_xor, ◌≡◌, refl, sym,
  ap, subst, ◌∙◌, ◌≢◌, ◌↔◌, ◌⊎◌, inl, inr, Bool, true, false, not, ◌&&◌, ◌||◌, Option, none, some,
  List, [], ◌∷◌, ◌++◌, map, arith, if◌then◌else◌, ltb, leb, ◌==◌, bool_beq, bytes_ltb,
  bytes_ltb_flip, bytes_ltb_irrefl, Bytes, codes, bytes_beq, bytes_beq_iff, keep, length, nat_eq,
  bytes_eq, ==_iff, Bool-cases, Option-cases, In, All,
}
use liberator_node_go.Firewall.Types.{PortRuleIndex, PortRule}
use liberator_node_go.Database.{
  PeerRow, RuleRow, LoadAllRulesRow, Database, get_peer_by_id, load_all_rules,
  load_rules_by_peer_id, insert_peer_rule, delete_peer_rule, delete_all_peer_rules,
}

-- The interface Firewall
pub record Operations (F : Type 0) : Type 0 where
  pub add_rule : PortRuleIndex → PortRule → F → Bool × F
  pub remove_rule : PortRuleIndex → F → Bool × F

-- PortRule of pkg/model/rule.go
pub record ModelRule : Type 0 where
  pub id : ℕ
  pub target_address : Option ℕ
  pub protocol : Bytes
  pub port_range_start : ℕ
  pub port_range_end : Option ℕ

-- Firewallmanager, with what it points to
pub record Manager (F : Type 0) : Type 0 where
  pub db : Database
  pub firewall : F
  pub node : Bytes

-- The rule that Run adds for a row.
unfoldable pub rule_from_row : LoadAllRulesRow → PortRule
rule_from_row row = record {
  index = record { node_id = []; rule_id = 0 };
  address = row.virtual_ip % 2 ^ 32;
  target_address = row.target_ip;
  protocol = row.protocol;
  port_range_start = row.port_range_start % 2 ^ 16;
  port_range_end = row.port_range_end;
}

-- The rule that AddRule adds for a peer.
unfoldable pub rule_of : PeerRow → ModelRule → PortRule
rule_of peer rule = record {
  index = record { node_id = []; rule_id = 0 };
  address = peer.virtual_ip % 2 ^ 32;
  target_address = rule.target_address;
  protocol = rule.protocol;
  port_range_start = rule.port_range_start;
  port_range_end = rule.port_range_end;
}

-- The parameters of InsertPeerRule.
unfoldable pub row_of : ℕ → ModelRule → RuleRow
row_of peer rule = record {
  id = 0;
  peer_id = peer;
  target_ip = rule.target_address;
  protocol = rule.protocol;
  port_range_start = rule.port_range_start;
  port_range_end = rule.port_range_end;
}

-- One row of ListPeerRules.
unfoldable pub model_of : RuleRow → ModelRule
model_of row = record {
  id = row.id;
  target_address = row.target_ip;
  protocol = row.protocol;
  port_range_start = row.port_range_start % 2 ^ 16;
  port_range_end = row.port_range_end;
}

module _ {F : Type 0} (ops : Operations F) where
  -- The loop of Run.
  unfoldable pub add_rows : Bytes → List LoadAllRulesRow → F → F
  add_rows node [] fw = fw
  add_rows node (row ∷ rows) fw =
      add_rows node rows
        (ops.add_rule (record { node_id = node; rule_id = row.id }) (rule_from_row row) fw).1

  -- Run: whether it returns no error, and the manager.
  unfoldable pub run : Bool → Manager F → Bool × Manager F
  run false m = (false, m)
  run true m = (true, record m { firewall = add_rows m.node (load_all_rules m.db) m.firewall })

  -- AddRule after the insert: `got` tells whether GetPeerByID is carried out.
  unfoldable pub publish_rule : Bool → ℕ → ModelRule → ℕ → Manager F → Option ModelRule × Manager F
  publish_rule got peer rule id m = elim (if got then get_peer_by_id peer m.db else none) [
    | none ↦ (none, m)
    | some row ↦ (
      some (record rule { id = id }),
      record m {
        firewall =
            (ops.add_rule (record { node_id = m.node; rule_id = id }) (rule_of row rule)
              m.firewall).1;
      },
    )
  ]

  -- AddRule after InsertPeerRule was carried out, on what it gave.
  unfoldable pub add_inserted :
      Bool → ℕ → ModelRule → Option ℕ × Database → Manager F → Option ModelRule × Manager F
  add_inserted got peer rule (none, db) m = (none, m)
  add_inserted got peer rule (some id, db) m = publish_rule got peer rule id (record m { db = db })

  -- AddRule: the rule with its id, or none for an error, and the manager.
  unfoldable pub add_rule : Bool → Bool → ℕ → ModelRule → Manager F → Option ModelRule × Manager F
  add_rule false got peer rule m = (none, m)
  add_rule true got peer rule m =
      add_inserted got peer rule (insert_peer_rule (row_of peer rule) m.db) m

  -- RemoveRule
  unfoldable pub remove_rule : Bool → ℕ → Manager F → Bool × Manager F
  remove_rule false id m = (false, m)
  remove_rule true id m = (
    true,
    record m {
      db = delete_peer_rule id m.db;
      firewall = (ops.remove_rule (record { node_id = m.node; rule_id = id }) m.firewall).1;
    },
  )

  -- The loop of RemoveAllPeerRules.
  unfoldable pub remove_rows : Bytes → List RuleRow → F → F
  remove_rows node [] fw = fw
  remove_rows node (row ∷ rows) fw =
      remove_rows node rows (ops.remove_rule (record { node_id = node; rule_id = row.id }) fw).1

  -- RemoveAllPeerRules: whether LoadRulesByPeerID and DeleteAllPeerRules are carried out
  unfoldable pub remove_all_peer_rules : Bool → Bool → ℕ → Manager F → Bool × Manager F
  remove_all_peer_rules false deleted peer m = (false, m)
  remove_all_peer_rules true deleted peer m =
      let m' = record m {
        firewall = remove_rows m.node (load_rules_by_peer_id peer m.db) m.firewall;
      } in
      if deleted then (true, record m' { db = delete_all_peer_rules peer m.db }) else (false, m')

  -- ListPeerRules
  unfoldable pub list_peer_rules : Bool → ℕ → Manager F → Option (List ModelRule)
  list_peer_rules false peer m = none
  list_peer_rules true peer m = some (map model_of (load_rules_by_peer_id peer m.db))
