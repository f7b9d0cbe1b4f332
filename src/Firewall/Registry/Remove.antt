-- ===== src/Firewall/Registry/Remove.antt =====
-- RemoveRule of pkg/firewall/firewall.go against the set of stored rules.
use liberator_node_go.Prelude.{
  ℕ, ◌≡◌, refl, sym, ◌∙◌, ◌≢◌, ◌↔◌, ◌⊎◌, inl, inr, Bool, true, false, none, some, arith, nat_eq,
  bytes_eq, Option-cases,
}
use liberator_node_go.Prelude.Map.{get, erase, get-erase, get-erase_ne}
use liberator_node_go.Firewall.Types.{PortRuleIndex, PortRule, Firewall}
use liberator_node_go.Firewall.Keys.{make_global_key}
use liberator_node_go.Firewall.{get_short_id, unlink_rule, remove_rule, drop_unauthorized_holes}
use liberator_node_go.Firewall.Registry.{IsNumbered, SameRule, Stored, Holds, make_global_key_iff}
use liberator_node_go.Firewall.Registry.Add.{key_taken, key_free}

unlink-IsNumbered :
    (key : ℕ) (rule : PortRule) (fw : Firewall)
    → IsNumbered fw
    → IsNumbered (drop_unauthorized_holes (unlink_rule key rule fw))
unfolding drop_unauthorized_holes unlink_rule
unlink-IsNumbered key rule fw v = record {
  below = v.below;
  given = v.given;
  one_each = v.one_each;
  keyed = λ k r g. v.keyed k r (ground (arith, get-erase key k fw.rules_by_id));
}

module _ (index : PortRuleIndex) (fw : Firewall) (s : ℕ) (v : IsNumbered fw)
    (known : get index.node_id fw.short_id_by_node_id ≡ some s) (rule : PortRule)
    (stored : get (make_global_key s index.rule_id) fw.rules_by_id ≡ some rule) where
  abbrev gone : Firewall
  gone = drop_unauthorized_holes (unlink_rule (make_global_key s index.rule_id) rule fw)

  same_key :
      (k : ℕ) (r : PortRule)
      → get k fw.rules_by_id ≡ some r
      → SameRule r.index index
      → k ≡ make_global_key s index.rule_id
  same_key k r g (en, ei) =
      let (t, et, ek) = v.keyed k r g in
      let bt = v.given _ t et in
      let b = v.below in
      let et' : get index.node_id fw.short_id_by_node_id ≡ some t = rw (← en) et in
      let st : s ≡ t = ground arith in
      ek
      ∙ (make_global_key_iff t s r.index.rule_id index.rule_id (omega arith) (omega arith)).1
          (sym st, ei)

  same_rule :
      (k : ℕ) (r : PortRule)
      → get k fw.rules_by_id ≡ some r
      → make_global_key s index.rule_id ≡ k
      → SameRule index r.index
  same_rule k r g e =
      let (t, et, ek) = v.keyed k r g in
      let bs = v.given _ s known in
      let bt = v.given _ t et in
      let b = v.below in
      let (st, ids) =
        (make_global_key_iff s t index.rule_id r.index.rule_id (omega arith) (omega arith)).0
          (e ∙ ek) in
      (v.one_each index.node_id r.index.node_id t (rw (← st) known) et, ids)

  gone-Stored : (j : PortRuleIndex) → Stored j gone ↔ (Stored j fw × (¬ SameRule index j))
  unfolding drop_unauthorized_holes unlink_rule
  gone-Stored j = (to, from)
    where
      key : ℕ
      key = make_global_key s index.rule_id

      to :
          ((k : ℕ) × (r : PortRule) × (get k (erase key fw.rules_by_id) ≡ some r)
            × SameRule r.index j)
          → Stored j fw × (¬ SameRule index j)
      to (k, r, g, same) =
          let old : get k fw.rules_by_id ≡ some r =
            ground (arith, get-erase key k fw.rules_by_id) in
          let other : key ≢ k = λ q. ground (arith, get-erase key k fw.rules_by_id) in
          (
            (k, r, old, same),
            λ si. other (sym (same_key k r old (same.0 ∙ sym si.0, same.1 ∙ sym si.1))),
          )

      from :
          Stored j fw × (¬ SameRule index j)
          → (k : ℕ) × (r : PortRule) × (get k (erase key fw.rules_by_id) ≡ some r)
            × SameRule r.index j
      from ((k, r, g, same), differs) =
          let other : key ≢ k =
            λ q. let si = same_rule k r g q in differs (si.0 ∙ same.0, si.1 ∙ same.1) in
          (k, r, get-erase_ne key k fw.rules_by_id other ∙ g, same)

  -- The same for the contents of the rules.
  gone-Holds : (r : PortRule) → Holds r gone ↔ (Holds r fw × (¬ SameRule index r.index))
  unfolding drop_unauthorized_holes unlink_rule
  gone-Holds r = (to, from)
    where
      key : ℕ
      key = make_global_key s index.rule_id

      to :
          ((k : ℕ) × (get k (erase key fw.rules_by_id) ≡ some r))
          → Holds r fw × (¬ SameRule index r.index)
      to (k, g) =
          let old : get k fw.rules_by_id ≡ some r =
            ground (arith, get-erase key k fw.rules_by_id) in
          let other : key ≢ k = λ q. ground (arith, get-erase key k fw.rules_by_id) in
          ((k, old), λ si. other (sym (same_key k r old (sym si.0, sym si.1))))

      from :
          Holds r fw × (¬ SameRule index r.index)
          → (k : ℕ) × (get k (erase key fw.rules_by_id) ≡ some r)
      from ((k, g), differs) =
          let other : key ≢ k = λ q. differs (same_rule k r g q) in
          (k, get-erase_ne key k fw.rules_by_id other ∙ g)

-- What one call of RemoveRule does to the stored rules.
abbrev pub Removed : PortRuleIndex → Firewall → Bool → Firewall → Type 0
Removed index fw ok fw' =
    ((ok ≡ true)
      × Stored index fw
      × ((j : PortRuleIndex) → Stored j fw' ↔ (Stored j fw × (¬ SameRule index j)))
      × ((r : PortRule) → Holds r fw' ↔ (Holds r fw × (¬ SameRule index r.index))))
    ⊎ ((ok ≡ false) × (¬ Stored index fw) × (fw' ≡ fw))

remove_rule-both :
    (index : PortRuleIndex) (fw : Firewall)
    → IsNumbered fw
    → Removed index fw (remove_rule index fw).0 (remove_rule index fw).1
      × IsNumbered (remove_rule index fw).1
unfolding remove_rule get_short_id
remove_rule-both index fw v = elim (Option-cases (get index.node_id fw.short_id_by_node_id)) [
  | inl e ↦ rw (e, remove_rule, get_short_id) (inr (refl, unknown e, refl), v)
  | inr (s, e) ↦
      let key = make_global_key s index.rule_id in
      elim (Option-cases (get key fw.rules_by_id)) [
        | inl q ↦
            rw (e, remove_rule, get_short_id, q) (inr (refl, key_free index fw s v e q, refl), v)
        | inr (rule, q) ↦
            rw (e, remove_rule, get_short_id, q)
              (
                inl (
                  refl,
                  key_taken index fw s v e rule q,
                  gone-Stored index fw s v e rule q,
                  gone-Holds index fw s v e rule q,
                ),
                unlink-IsNumbered key rule fw v,
              )
      ]
]
  where
    unknown : get index.node_id fw.short_id_by_node_id ≡ none → ¬ Stored index fw
    unknown e (k, r, g, (en, ei)) =
        let (t, et, ek) = v.keyed k r g in
        let et' : get index.node_id fw.short_id_by_node_id ≡ some t = rw (← en) et in ground arith

-- On a numbered firewall RemoveRule succeeds exactly when the rule is stored, and then the stored rules, contents included, are those before
-- without it; a call that is refused changes nothing at all.
pub remove_rule-Removed :
    (index : PortRuleIndex) (fw : Firewall)
    → IsNumbered fw
    → Removed index fw (remove_rule index fw).0 (remove_rule index fw).1
remove_rule-Removed index fw v = (remove_rule-both index fw v).0

-- RemoveRule keeps the numbering of the nodes and the keys of the rules.
pub remove_rule-IsNumbered :
    (index : PortRuleIndex) (fw : Firewall) → IsNumbered fw → IsNumbered (remove_rule index fw).1
remove_rule-IsNumbered index fw v = (remove_rule-both index fw v).1
