-- ===== src/Firewall/Holes.antt =====
-- The holes of pkg/firewall/firewall.go: RuleCheck, Holepunch and RemoveRule on them.
use liberator_node_go.Prelude.{
  ℕ, ◌+◌, ◌<◌, ◌≡◌, refl, sym, ◌↔◌, ◌⊎◌, inl, inr, true, false, some, arith, ltb, Bytes, nat_eq,
  bytes_eq, Bool-cases, Option-cases, In,
}
use liberator_node_go.Prelude.{In-keep, keep-In}
use liberator_node_go.Prelude.Map.{get, get-put_self, get-In}
use liberator_node_go.Dgmessage.{HoleInfo}
use liberator_node_go.Firewall.Types.{PortRuleIndex, PortRule, Hole, Firewall}
use liberator_node_go.Firewall.Keys.{flow_key, make_global_key}
use liberator_node_go.Firewall.{
  rules_allow, rule_check, holepunch, remove_rule, unlink_rule, drop_unauthorized_holes,
  get_short_id,
}
use liberator_node_go.Firewall.Index.{IsIndexed}
use liberator_node_go.Firewall.Index.Unlink.{unlink_rule-IsIndexed}
use liberator_node_go.Firewall.Index.Operations.{remove_rule-IsIndexed}
use liberator_node_go.Firewall.FlowKey.{SameFlow, flow_key_iff}
use liberator_node_go.Firewall.Rules.{Permitted, rules_allow_iff}

-- A hole for the packet's conversation that has not expired.
abbrev pub OpenHole : ℕ → HoleInfo → Firewall → Type 0
OpenHole now i fw = (h : Hole) × (get (flow_key i) fw.holes ≡ some h) × (now < h.expire)

rule_check_sound :
    (now : ℕ) (i : HoleInfo) (fw : Firewall)
    → (rule_check now i fw).0 ≡ true
    → OpenHole now i fw ⊎ (rules_allow i fw ≡ true)
unfolding rule_check
rule_check_sound now i fw h = elim (Option-cases (get (flow_key i) fw.holes)) [
  | inl e ↦ inr (ground arith)
  | inr (hole, e) ↦ elim (Bool-cases (ltb now hole.expire)) [
    | inl q ↦ inl (hole, e, ground arith)
    | inr q ↦ inr (ground arith)
  ]
]

rule_check_complete :
    (now : ℕ) (i : HoleInfo) (fw : Firewall)
    → OpenHole now i fw ⊎ (rules_allow i fw ≡ true)
    → (rule_check now i fw).0 ≡ true
unfolding rule_check
rule_check_complete now i fw (inl (h, e, q)) = ground arith
rule_check_complete now i fw (inr h) = ground arith

-- In a firewall whose two maps agree, RuleCheck lets a packet through exactly when its
-- conversation has a hole that has not expired or a stored rule for its destination, not for its
-- sender, matches it.
pub rule_check_iff :
    (now : ℕ) (i : HoleInfo) (fw : Firewall)
    → IsIndexed fw
    → ((rule_check now i fw).0 ≡ true) ↔ (OpenHole now i fw ⊎ Permitted fw i)
rule_check_iff now i fw v = (
  λ h. ground (arith, rule_check_sound now i fw h, (rules_allow_iff i fw v).0),
  λ h. rule_check_complete now i fw (open_or h),
)
  where
    open_or : OpenHole now i fw ⊎ Permitted fw i → OpenHole now i fw ⊎ (rules_allow i fw ≡ true)
    open_or (inl h) = inl h
    open_or (inr p) = inr ((rules_allow_iff i fw v).1 p)

-- After a Holepunch the packets of the same conversation, in both directions, pass RuleCheck
-- until the duration is over, whatever the rules are.
pub rule_check-holepunch :
    (now later duration : ℕ) (i j : HoleInfo) (fw : Firewall)
    → SameFlow i j
    → later < now + duration
    → (rule_check later j (holepunch now i duration fw)).0 ≡ true
unfolding holepunch
rule_check-holepunch now later duration i j fw s q = rule_check_complete later j _ (
    inl (
      record { expire = now + duration; info = i },
      rw (sym ((flow_key_iff i j).1 s)) (get-put_self (flow_key i) _ fw.holes),
      q,
    ))

-- Every hole is stored under the key of the flow that it was punched for.
abbrev pub HolesKeyed : Firewall → Type 0
HolesKeyed fw = (key : Bytes) (h : Hole) → In (key, h) fw.holes → key ≡ flow_key h.info

drop_unauthorized_lem :
    (fw : Firewall) (key : Bytes) (h : Hole)
    → IsIndexed fw
    → In (key, h) (drop_unauthorized_holes fw).holes ↔ (In (key, h) fw.holes × Permitted fw h.info)
unfolding drop_unauthorized_holes
drop_unauthorized_lem fw key h v = (
  λ m.
      let (old, allowed) = In-keep _ (key, h) fw.holes m in
      (old, (rules_allow_iff h.info fw v).0 allowed),
  λ (old, p). keep-In _ (key, h) fw.holes old ((rules_allow_iff h.info fw v).1 p),
)

-- RemoveRule finds a rule and takes it out, or changes nothing.
pub remove_rule_cases :
    (index : PortRuleIndex) (fw : Firewall)
    → (remove_rule index fw ≡ (false, fw))
      ⊎ ((key : ℕ) × (rule : PortRule) × (get key fw.rules_by_id ≡ some rule)
          × (remove_rule index fw ≡ (true, drop_unauthorized_holes (unlink_rule key rule fw))))
unfolding remove_rule
remove_rule_cases index fw = elim (Option-cases (get_short_id index.node_id fw)) [
  | inl e ↦ inl (rw (e, remove_rule))
  | inr (short, e) ↦
      let key = make_global_key short index.rule_id in
      elim (Option-cases (get key fw.rules_by_id)) [
        | inl q ↦ inl (rw (e, remove_rule, q))
        | inr (rule, q) ↦ inr (key, rule, q, rw (e, remove_rule, q))
      ]
]

-- When RemoveRule succeeds on a firewall whose two maps agree, a hole is left exactly when it was there before and some rule that is
-- still stored permits the flow that it was punched for.
pub holes-remove_rule :
    (index : PortRuleIndex) (fw : Firewall) (key : Bytes) (h : Hole)
    → IsIndexed fw
    → (remove_rule index fw).0 ≡ true
    → In (key, h) (remove_rule index fw).1.holes
      ↔ (In (key, h) fw.holes × Permitted (remove_rule index fw).1 h.info)
unfolding drop_unauthorized_holes unlink_rule
holes-remove_rule index fw key h v ok = elim (remove_rule_cases index fw) [
  | inl e ↦ absurd (ground arith)
  | inr (k, rule, g, e) ↦
      rw e
        (drop_unauthorized_lem (unlink_rule k rule fw) key h (unlink_rule-IsIndexed fw k rule v g))
]

SameFlow-refl : (i : HoleInfo) → SameFlow i i
SameFlow-refl i = (refl, inl (refl, refl, inr (refl, refl)))

-- Revoking a rule stops its traffic: after a RemoveRule that succeeds, on a firewall whose two
-- maps agree and whose holes stand under the keys of their flows, a packet is refused at any time
-- if no stored rule permits its conversation in either direction.
pub rule_check-remove_rule :
    (index : PortRuleIndex) (fw : Firewall) (now : ℕ) (i : HoleInfo)
    → IsIndexed fw
    → HolesKeyed fw
    → (remove_rule index fw).0 ≡ true
    → ((j : HoleInfo) → SameFlow i j → ¬ Permitted (remove_rule index fw).1 j)
    → (rule_check now i (remove_rule index fw).1).0 ≡ false
rule_check-remove_rule index fw now i v keyed ok closed =
    elim (Bool-cases (rule_check now i after).0) [
      | inr e ↦ e
      | inl e ↦
          absurd (open_or ((rule_check_iff now i after (remove_rule-IsIndexed index fw v)).0 e))
    ]
  where
    after : Firewall
    after = (remove_rule index fw).1

    open_or : (OpenHole now i after ⊎ Permitted after i) → ⊥
    open_or (inr p) = closed i (SameFlow-refl i) p
    open_or (inl (h, g, q)) =
        let (old, p) =
          (holes-remove_rule index fw (flow_key i) h v ok).0
            (get-In (flow_key i) h after.holes g) in
        closed h.info ((flow_key_iff i h.info).0 (keyed (flow_key i) h old)) p
