-- ===== src/Firewall/History.antt =====
-- Any sequence of calls on an engine made by New of pkg/firewall/firewall.go.
use liberator_node_go.Prelude.{
  ℕ, suc, ◌+◌, ◌^◌, ◌≤◌, ◌<◌, ◌≡◌, refl, ◌↔◌, ◌⊎◌, inl, inr, some, List, [], ◌∷◌, arith, Bytes,
  length, nat_eq, bytes_eq, In,
}
use liberator_node_go.Prelude.{In-map, map-In, In-keep}
use liberator_node_go.Prelude.Map.{get, erase, In-put, In-erase, In-get, get-In}
use liberator_node_go.Dgmessage.{HoleInfo}
use liberator_node_go.Firewall.Types.{PortRuleIndex, PortRule, RuleDump, Hole, Firewall}
use liberator_node_go.Firewall.Keys.{flow_key}
use liberator_node_go.Firewall.{
  new, add_rule, remove_rule, rule_check, holepunch, dump_of, dump_rules, get_or_create_short_id,
  insert_rule, link_rule, unlink_rule, drop_unauthorized_holes,
}
use liberator_node_go.Firewall.Index.{IsIndexed, IsIndexed-same, new-IsIndexed}
use liberator_node_go.Firewall.Index.Operations.{add_rule-IsIndexed, remove_rule-IsIndexed}
use liberator_node_go.Firewall.Holes.{HolesKeyed, remove_rule_cases}
use liberator_node_go.Firewall.Registry.{IsNumbered}
use liberator_node_go.Firewall.Registry.Add.{add_rule-IsNumbered}
use liberator_node_go.Firewall.Registry.Remove.{remove_rule-IsNumbered}

-- The calls that change an engine, a method with its arguments and the time that it reads.
pub data Call : Type 0 where
  adds : PortRuleIndex → PortRule → Call
  removes : PortRuleIndex → Call
  checks : ℕ → HoleInfo → Call
  punches : ℕ → HoleInfo → ℕ → Call

unfoldable pub step : Firewall → Call → Firewall
step fw (adds index rule) = (add_rule index rule fw).1
step fw (removes index) = (remove_rule index fw).1
step fw (checks now info) = (rule_check now info fw).1
step fw (punches now info duration) = holepunch now info duration fw

unfoldable pub run : Firewall → List Call → Firewall
run fw [] = fw
run fw (c ∷ cs) = run (step fw c) cs

pub record IsGood (n : ℕ) (fw : Firewall) : Type 0 where
  pub indexed : IsIndexed fw
  pub numbered : IsNumbered fw
  pub keyed : HolesKeyed fw
  pub few : fw.next_short_id ≤ n

HolesKeyed-same : (f g : Firewall) → g.holes ≡ f.holes → HolesKeyed f → HolesKeyed g
HolesKeyed-same f g e v key h m = v key h (rw e at m)

add_rule_frame :
    (index : PortRuleIndex) (rule : PortRule) (fw : Firewall)
    → ((add_rule index rule fw).1.holes ≡ fw.holes)
      × ((add_rule index rule fw).1.next_short_id ≤ fw.next_short_id + 1)
unfolding add_rule get_or_create_short_id insert_rule link_rule
add_rule_frame index rule fw = ground arith

remove_rule_frame :
    (index : PortRuleIndex) (fw : Firewall)
    → (remove_rule index fw).1.next_short_id ≡ fw.next_short_id
unfolding remove_rule unlink_rule drop_unauthorized_holes
remove_rule_frame index fw = ground arith

remove_rule-holes :
    (index : PortRuleIndex) (fw : Firewall) (key : Bytes) (h : Hole)
    → In (key, h) (remove_rule index fw).1.holes
    → In (key, h) fw.holes
unfolding unlink_rule drop_unauthorized_holes
remove_rule-holes index fw key h m = elim (remove_rule_cases index fw) [
  | inl e ↦ rw e at m
  | inr (k, rule, g, e) ↦ (In-keep _ (key, h) fw.holes (rw e at m)).0
]

rule_check_frame :
    (now : ℕ) (i : HoleInfo) (fw : Firewall)
    → ((rule_check now i fw).1 ≡ fw)
      ⊎ ((rule_check now i fw).1 ≡ record fw { holes = erase (flow_key i) fw.holes })
unfolding rule_check
rule_check_frame now i fw = ground arith

punch-HolesKeyed :
    (now duration : ℕ) (i : HoleInfo) (fw : Firewall)
    → HolesKeyed fw
    → HolesKeyed (holepunch now i duration fw)
unfolding holepunch
punch-HolesKeyed now duration i fw v key h m = ground (
  arith,
  In-put (flow_key i) key (record { expire = now + duration; info = i }) h fw.holes,
  v key h,
)

check-HolesKeyed :
    (now : ℕ) (i : HoleInfo) (fw : Firewall) → HolesKeyed fw → HolesKeyed (rule_check now i fw).1
check-HolesKeyed now i fw v key h m = elim (rule_check_frame now i fw) [
  | inl e ↦ v key h (rw e at m)
  | inr e ↦ v key h (In-erase (flow_key i) key h fw.holes (rw e at m))
]

-- A change of the holes alone.
IsGood-holes :
    (n : ℕ) (fw : Firewall) (holes : List (Bytes × Hole))
    → IsGood n fw
    → HolesKeyed (record fw { holes = holes })
    → IsGood (suc n) (record fw { holes = holes })
IsGood-holes n fw holes g k = record {
  indexed = IsIndexed-same fw _ refl refl g.indexed;
  numbered = record {
    below = g.numbered.below;
    given = g.numbered.given;
    one_each = g.numbered.one_each;
    keyed = g.numbered.keyed;
  };
  keyed = k;
  few = omega (arith, g.few);
}

step-IsGood :
    (n : ℕ) (fw : Firewall) (c : Call) → suc n < 2 ^ 16 → IsGood n fw → IsGood (suc n) (step fw c)
unfolding step holepunch
step-IsGood n fw (adds index rule) h g =
    let few = g.few in
    let (holes, next) = add_rule_frame index rule fw in
    record {
      indexed = add_rule-IsIndexed index rule fw g.indexed;
      numbered = add_rule-IsNumbered index rule fw g.numbered (omega arith);
      keyed = HolesKeyed-same fw (add_rule index rule fw).1 holes g.keyed;
      few = omega arith;
    }
step-IsGood n fw (removes index) h g =
    let few = g.few in
    let next = remove_rule_frame index fw in
    record {
      indexed = remove_rule-IsIndexed index fw g.indexed;
      numbered = remove_rule-IsNumbered index fw g.numbered;
      keyed = λ key hole m. g.keyed key hole (remove_rule-holes index fw key hole m);
      few = omega arith;
    }
step-IsGood n fw (checks now info) h g = elim (rule_check_frame now info fw) [
  | inl e ↦ rw e (IsGood-holes n fw fw.holes g g.keyed)
  | inr e ↦ rw e (IsGood-holes n fw _ g (rw e at (check-HolesKeyed now info fw g.keyed)))
]
step-IsGood n fw (punches now info duration) h g =
    IsGood-holes n fw _ g (unfold holepunch in punch-HolesKeyed now duration info fw g.keyed)

new-IsGood : IsGood 0 new
unfolding new get
new-IsGood = record {
  indexed = new-IsIndexed;
  numbered = record {
    below = omega arith;
    given = λ node s e. absurd (cc);
    one_each = λ m n s e f. absurd (cc);
    keyed = λ key r e. absurd (cc);
  };
  keyed = λ key h m. elim m [ ];
  few = omega arith;
}

run-IsGood :
    (n : ℕ) (fw : Firewall) (cs : List Call)
    → n + length cs < 2 ^ 16
    → IsGood n fw
    → IsGood (n + length cs) (run fw cs)
unfolding run
run-IsGood n fw [] h g = let e : n + 0 ≡ n = omega arith in rw e g
run-IsGood n fw (c ∷ cs) h g =
    let e : n + suc (length cs) ≡ suc n + length cs = omega arith in
    rw e (run-IsGood (suc n) (step fw c) cs (omega arith) (step-IsGood n fw c (omega arith) g))

-- After fewer than 2 ^ 16 calls on a new engine, in any order and with any arguments, the two maps
-- of rules agree, every node has its own short id, every rule stands under the key of its index,
-- and every hole stands under the key of its flow.
pub run-new-IsGood : (cs : List Call) → length cs < 2 ^ 16 → IsGood (length cs) (run new cs)
run-new-IsGood cs h =
    let e : 0 + length cs ≡ length cs = omega arith in
    rw e at (run-IsGood 0 new cs (omega arith) new-IsGood)

-- In a firewall whose two maps agree, DumpRules lists exactly the stored rules.
pub dump_rules_iff :
    (fw : Firewall) (d : RuleDump)
    → IsIndexed fw
    → In d (dump_rules fw)
      ↔ ((key : ℕ) × (r : PortRule) × (get key fw.rules_by_id ≡ some r) × (dump_of r ≡ d))
unfolding dump_rules
dump_rules_iff fw d v = (
  λ m.
      let (kr, at, e) = map-In (λ (kr : ℕ × PortRule). dump_of kr.1) fw.rules_by_id d m in
      (kr.0, kr.1, In-get kr.0 kr.1 fw.rules_by_id v.ids_once at, e),
  λ (key, r, g, e). rw (← e) (
      In-map (λ (kr : ℕ × PortRule). dump_of kr.1) fw.rules_by_id (key, r)
        (get-In key r fw.rules_by_id g)),
)
