-- ===== src/Firewall/Types.antt =====
-- pkg/firewall/firewall.go: the rules, the holes and the engine's state.
use liberator_node_go.Prelude.{ℕ, Option, List, Bytes, nat_eq, bytes_eq}
use liberator_node_go.Dgmessage.{HoleInfo}

-- PortRuleIndex
pub record PortRuleIndex : Type 0 where
  pub node_id : Bytes
  pub rule_id : ℕ

-- PortRule; a nil pointer is `none`.
pub record PortRule : Type 0 where
  pub index : PortRuleIndex
  pub address : ℕ
  pub target_address : Option ℕ
  pub protocol : Bytes
  pub port_range_start : ℕ
  pub port_range_end : Option ℕ

-- RuleDump
pub record RuleDump : Type 0 where
  pub node_id : Bytes
  pub rule_id : ℕ
  pub address : ℕ
  pub target_address : Option ℕ
  pub protocol : Bytes
  pub port_range_start : ℕ
  pub port_range_end : Option ℕ

-- hole
pub record Hole : Type 0 where
  pub expire : ℕ
  pub info : HoleInfo

-- firewallEngineImpl
pub record Firewall : Type 0 where
  pub rules_by_addr : List (ℕ × List ℕ)
  pub rules_by_id : List (ℕ × PortRule)
  pub short_id_by_node_id : List (Bytes × ℕ)
  pub next_short_id : ℕ
  pub holes : List (Bytes × Hole)
