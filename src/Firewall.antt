-- ===== src/Firewall.antt =====
-- pkg/firewall/firewall.go: rules by address and by key, short node ids, and the holes of flows
-- that were let through. A method is one step: calls that overlap between the locked parts of a
-- method are not modelled. The time that a method reads is an argument.
pub mod Types
pub mod Keys
pub mod FlowKey
pub mod Index
pub mod Rules
pub mod Holes
pub mod Registry
pub mod History
pub mod Tests
use liberator_node_go.Prelude.{
  ℕ, zero, suc, ◌+◌, ◌-◌, ◌*◌, ◌/◌, ◌%◌, ◌^◌, ◌≤◌, ◌<◌, bit_and, bit_or, ◌≡◌, refl, sym, ap, ◌∙◌,
  ◌≢◌, ◌↔◌, ◌⊎◌, inl, inr, Bool, true, false, not, ◌&&◌, ◌||◌, Option, none, some, List, [], ◌∷◌,
  ◌++◌, map, arith, if◌then◌else◌, ltb, leb, ◌==◌, Bytes, codes, bytes_beq, bytes_beq_iff, keep,
  length, nat_eq, bytes_eq, ==_iff, Bool-cases, Option-cases, In, All,
}
use liberator_node_go.Prelude.Map.{get, put, erase}
use liberator_node_go.Dgmessage.{HoleInfo}
use Types.{PortRuleIndex, PortRule, RuleDump, Hole, Firewall}
use Keys.{make_global_key, flow_key}

-- New
unfoldable pub new : Firewall
new = record {
  rules_by_addr = [];
  rules_by_id = [];
  short_id_by_node_id = [];
  next_short_id = 0;
  holes = [];
}

-- getShortID
unfoldable pub get_short_id : Bytes → Firewall → Option ℕ
get_short_id node fw = get node fw.short_id_by_node_id

-- getOrCreateShortID; the counter is a uint16.
unfoldable pub get_or_create_short_id : Bytes → Firewall → ℕ × Firewall
get_or_create_short_id node fw = elim (get node fw.short_id_by_node_id) [
  | some id ↦ (id, fw)
  | none ↦
      let id = (fw.next_short_id + 1) % 2 ^ 16 in
      (
        id,
        record fw { next_short_id = id; short_id_by_node_id = put node id fw.short_id_by_node_id },
      )
]

-- A read of a missing key of rulesByAddr gives the empty slice.
unfoldable pub ids_at : ℕ → List (ℕ × List ℕ) → List ℕ
ids_at address m = elim (get address m) [ none ↦ [] | some ids ↦ ids ]

-- The writes of AddRule under rulesMu: both maps get the rule.
unfoldable pub link_rule : ℕ → PortRule → Firewall → Firewall
link_rule key rule fw = record fw {
  rules_by_id = put key rule fw.rules_by_id;
  rules_by_addr =
      put rule.address (ids_at rule.address fw.rules_by_addr ++ key ∷ []) fw.rules_by_addr;
}

-- The locked part of AddRule, on the key of the rule.
unfoldable pub insert_rule : ℕ → PortRuleIndex → PortRule → Firewall → Bool × Firewall
insert_rule key index rule fw = elim (get key fw.rules_by_id) [
  | some old ↦ (false, fw)
  | none ↦ (true, link_rule key (record rule { index = index }) fw)
]

-- AddRule
unfoldable pub add_rule : PortRuleIndex → PortRule → Firewall → Bool × Firewall
add_rule index rule fw =
    if bytes_beq index.node_id []
    then (false, fw)
    else let (short, fw') = get_or_create_short_id index.node_id fw in
      insert_rule (make_global_key short index.rule_id) index rule fw'

-- ExistsRule
unfoldable pub exists_rule : PortRuleIndex → Firewall → Bool
exists_rule index fw = elim (get_short_id index.node_id fw) [
  | none ↦ false
  | some short ↦ elim (get (make_global_key short index.rule_id) fw.rules_by_id) [
    | none ↦ false
    | some rule ↦ true
  ]
]

-- One record of DumpRules.
unfoldable pub dump_of : PortRule → RuleDump
dump_of rule = record {
  node_id = rule.index.node_id;
  rule_id = rule.index.rule_id;
  address = rule.address;
  target_address = rule.target_address;
  protocol = rule.protocol;
  port_range_start = rule.port_range_start;
  port_range_end = rule.port_range_end;
}

-- DumpRules
unfoldable pub dump_rules : Firewall → List RuleDump
dump_rules fw = map (λ kr. dump_of kr.1) fw.rules_by_id

-- The loop of RemoveRule over the ids of an address: the first equal id is cut out.
unfoldable pub cut_id : ℕ → List ℕ → List ℕ
cut_id id [] = []
cut_id id (x ∷ xs) = let rest = cut_id id xs in if x == id then xs else x ∷ rest

-- The zero value that Go gives for a missing key of rulesByID.
abbrev pub zero_rule : PortRule
zero_rule = record {
  index = record { node_id = []; rule_id = 0 };
  address = 0;
  target_address = none;
  protocol = [];
  port_range_start = 0;
  port_range_end = none;
}

-- fw.rulesByID[ruleId]
unfoldable pub rule_at : ℕ → Firewall → PortRule
rule_at id fw = elim (get id fw.rules_by_id) [ none ↦ zero_rule | some rule ↦ rule ]

-- The test on the sender.
unfoldable pub target_allows : Option ℕ → ℕ → Bool
target_allows none src = true
target_allows (some target) src = target == src

-- The test on the destination port.
unfoldable pub port_allows : PortRule → ℕ → Bool
port_allows rule port = elim rule.port_range_end [
  | none ↦ rule.port_range_start == port
  | some last ↦ leb rule.port_range_start port && leb port last
]

-- The loop of rulesAllow for ICMP.
unfoldable pub icmp_loop : HoleInfo → Firewall → List ℕ → Bool
icmp_loop info fw [] = false
icmp_loop info fw (id ∷ ids) =
    let rest = icmp_loop info fw ids in
    if target_allows (rule_at id fw).target_address info.src_ip then true else rest

-- The loop of rulesAllow for TCP and UDP.
unfoldable pub port_loop : HoleInfo → Firewall → List ℕ → Bool
port_loop info fw [] = false
port_loop info fw (id ∷ ids) =
    let rule = rule_at id fw in
    let rest = port_loop info fw ids in
    if not (target_allows rule.target_address info.src_ip)
    then rest
    else if not (bytes_beq rule.protocol (codes "both"))
        && not (bytes_beq rule.protocol info.protocol)
    then rest
    else if port_allows rule info.dst_port
    then true
    else rest

-- rulesAllow
unfoldable pub rules_allow : HoleInfo → Firewall → Bool
rules_allow info fw = elim (get info.dst_ip fw.rules_by_addr) [
  | none ↦ false
  | some ids ↦
      if bytes_beq info.protocol (codes "icmp")
      then icmp_loop info fw ids
      else port_loop info fw ids
]

-- dropUnauthorizedHoles
unfoldable pub drop_unauthorized_holes : Firewall → Firewall
drop_unauthorized_holes fw = record fw { holes = keep (λ kh. rules_allow kh.1.info fw) fw.holes }

-- The locked part of RemoveRule, after the key was found.
unfoldable pub unlink_rule : ℕ → PortRule → Firewall → Firewall
unlink_rule key rule fw =
    let ids = cut_id key (ids_at rule.address fw.rules_by_addr) in
    record fw {
      rules_by_id = erase key fw.rules_by_id;
      rules_by_addr =
          (if length ids == 0
            then erase rule.address fw.rules_by_addr
            else put rule.address ids fw.rules_by_addr);
    }

-- RemoveRule
unfoldable pub remove_rule : PortRuleIndex → Firewall → Bool × Firewall
remove_rule index fw = elim (get_short_id index.node_id fw) [
  | none ↦ (false, fw)
  | some short ↦
      let key = make_global_key short index.rule_id in
      elim (get key fw.rules_by_id) [
        | none ↦ (false, fw)
        | some rule ↦ (true, drop_unauthorized_holes (unlink_rule key rule fw))
      ]
]

-- RuleCheck at the time `now`.
unfoldable pub rule_check : ℕ → HoleInfo → Firewall → Bool × Firewall
rule_check now info fw = elim (get (flow_key info) fw.holes) [
  | none ↦ (rules_allow info fw, fw)
  | some h ↦
      if ltb now h.expire
      then (true, fw)
      else (rules_allow info fw, record fw { holes = erase (flow_key info) fw.holes })
]

-- Holepunch at the time `now`.
unfoldable pub holepunch : ℕ → HoleInfo → ℕ → Firewall → Firewall
holepunch now info duration fw = record fw {
  holes = put (flow_key info) (record { expire = now + duration; info = info }) fw.holes;
}
