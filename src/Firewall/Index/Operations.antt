-- ===== src/Firewall/Index/Operations.antt =====
-- AddRule and RemoveRule of pkg/firewall/firewall.go keep the two maps of rules in agreement.
use liberator_node_go.Prelude.{
  ℕ, ◌≡◌, refl, inl, inr, [], arith, Bytes, bytes_beq, nat_eq, bytes_eq, Bool-cases, Option-cases,
}
use liberator_node_go.Prelude.Map.{get}
use liberator_node_go.Firewall.Keys.{make_global_key}
use liberator_node_go.Firewall.Types.{PortRuleIndex, PortRule, Firewall}
use liberator_node_go.Firewall.{
  insert_rule, get_or_create_short_id, get_short_id, add_rule, remove_rule, unlink_rule,
  drop_unauthorized_holes,
}
use liberator_node_go.Firewall.Index.{IsIndexed, IsIndexed-same, link_rule-IsIndexed}
use liberator_node_go.Firewall.Index.Unlink.{unlink_rule-IsIndexed}

get_or_create_keeps :
    (node : Bytes) (fw : Firewall)
    → ((get_or_create_short_id node fw).1.rules_by_id ≡ fw.rules_by_id)
      × ((get_or_create_short_id node fw).1.rules_by_addr ≡ fw.rules_by_addr)
unfolding get_or_create_short_id
get_or_create_keeps node fw = ground arith

insert_rule-IsIndexed :
    (key : ℕ) (index : PortRuleIndex) (rule : PortRule) (fw : Firewall)
    → IsIndexed fw
    → IsIndexed (insert_rule key index rule fw).1
unfolding insert_rule
insert_rule-IsIndexed key index rule fw v = elim (Option-cases (get key fw.rules_by_id)) [
  | inl e ↦ rw (e, insert_rule) (link_rule-IsIndexed fw key _ v e)
  | inr (old, e) ↦ rw (e, insert_rule) v
]

-- AddRule keeps the two maps of rules in agreement, on every branch.
pub add_rule-IsIndexed :
    (index : PortRuleIndex) (rule : PortRule) (fw : Firewall)
    → IsIndexed fw
    → IsIndexed (add_rule index rule fw).1
unfolding add_rule
add_rule-IsIndexed index rule fw v =
    let (p, q) = get_or_create_keeps index.node_id fw in
    let (short, fw') = get_or_create_short_id index.node_id fw in
    let w = IsIndexed-same fw fw' p q v in
    let key = make_global_key short index.rule_id in
    elim (Bool-cases (bytes_beq index.node_id [])) [
      | inl e ↦ rw (e, add_rule) v
      | inr e ↦ rw (e, add_rule) (insert_rule-IsIndexed key index rule fw' w)
    ]

-- RemoveRule keeps the two maps of rules in agreement, on every branch.
pub remove_rule-IsIndexed :
    (index : PortRuleIndex) (fw : Firewall) → IsIndexed fw → IsIndexed (remove_rule index fw).1
unfolding remove_rule
remove_rule-IsIndexed index fw v = elim (Option-cases (get_short_id index.node_id fw)) [
  | inl e ↦ rw (e, remove_rule) v
  | inr (short, e) ↦
      let key = make_global_key short index.rule_id in
      elim (Option-cases (get key fw.rules_by_id)) [
        | inl none_ ↦ rw (e, remove_rule, none_) v
        | inr (rule, g) ↦
            rw (e, remove_rule, g)
              (IsIndexed-same (unlink_rule key rule fw) _ (unfold drop_unauthorized_holes in refl)
                (unfold drop_unauthorized_holes in refl) (unlink_rule-IsIndexed fw key rule v g))
      ]
]
