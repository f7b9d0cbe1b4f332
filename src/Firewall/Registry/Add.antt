-- ===== src/Firewall/Registry/Add.antt =====
-- AddRule of pkg/firewall/firewall.go against the set of stored rules.
use liberator_node_go.Prelude.{
  ℕ, ◌+◌, ◌%◌, ◌^◌, ◌<◌, ◌≡◌, refl, sym, ap, ◌∙◌, ◌≢◌, ◌↔◌, ◌⊎◌, inl, inr, Bool, true, false, none,
  some, [], arith, ◌==◌, Bytes, bytes_beq, bytes_beq_iff, nat_eq, bytes_eq, Bool-cases,
  Option-cases,
}
use liberator_node_go.Prelude.Map.{get, put, get-put, get-put_self}
use liberator_node_go.Firewall.Types.{PortRuleIndex, PortRule, Firewall}
use liberator_node_go.Firewall.Keys.{make_global_key}
use liberator_node_go.Firewall.{get_or_create_short_id, insert_rule, link_rule, add_rule}
use liberator_node_go.Firewall.Registry.{IsNumbered, SameRule, Stored, Holds, make_global_key_iff}

-- There is a short id left for a node not seen before.
abbrev pub HasRoom : Firewall → Type 0
HasRoom fw = fw.next_short_id + 1 < 2 ^ 16

module _ (node : Bytes) (fw : Firewall) (v : IsNumbered fw) (room : HasRoom fw) where
  abbrev pub created : Firewall
  created = (get_or_create_short_id node fw).1

  pub created_id : get node created.short_id_by_node_id ≡ some (get_or_create_short_id node fw).0
  unfolding get_or_create_short_id
  created_id =
      ground (arith, get-put_self node ((fw.next_short_id + 1) % 2 ^ 16) fw.short_id_by_node_id)

  pub created_rules : created.rules_by_id ≡ fw.rules_by_id
  unfolding get_or_create_short_id
  created_rules = ground arith

  pub created-IsNumbered : IsNumbered (get_or_create_short_id node fw).1
  unfolding get_or_create_short_id
  created-IsNumbered = elim (Option-cases (get node fw.short_id_by_node_id)) [
    | inr (s, e) ↦ rw (e, get_or_create_short_id) v
    | inl e ↦
        rw (e, get_or_create_short_id)
          (record {
            below = omega arith;
            given = λ m s g. ground (
              arith,
              get-put node m ((fw.next_short_id + 1) % 2 ^ 16) fw.short_id_by_node_id,
              v.given m s,
            );
            one_each = λ m n s g h. ground (
              arith,
              get-put node m ((fw.next_short_id + 1) % 2 ^ 16) fw.short_id_by_node_id,
              get-put node n ((fw.next_short_id + 1) % 2 ^ 16) fw.short_id_by_node_id,
              bytes_beq_iff node m,
              bytes_beq_iff node n,
              v.given m s,
              v.given n s,
              v.one_each m n s,
            );
            keyed = λ key r g.
                let (s, es, ek) = v.keyed key r g in
                (
                  s,
                  ground (
                    arith,
                    get-put node r.index.node_id ((fw.next_short_id + 1) % 2 ^ 16)
                        fw.short_id_by_node_id,
                    bytes_beq_iff node r.index.node_id,
                  ),
                  ek,
                );
          })
  ]

module _ (index : PortRuleIndex) (rule : PortRule) (fw : Firewall) (s : ℕ) where
  -- The key and the rule that AddRule stores.
  abbrev pub key_of : ℕ
  key_of = make_global_key s index.rule_id

  abbrev pub rule_of : PortRule
  rule_of = record rule { index = index }

  pub link-IsNumbered :
      IsNumbered fw
      → get index.node_id fw.short_id_by_node_id ≡ some s
      → IsNumbered (link_rule key_of rule_of fw)
  unfolding link_rule
  link-IsNumbered v e = record {
    below = v.below;
    given = v.given;
    one_each = v.one_each;
    keyed = λ key r g. elim (Bool-cases (key_of == key)) [
      | inl same ↦
          let k : key_of ≡ key = ground arith in
          let q : rule_of ≡ r = ground (arith, get-put key_of key rule_of fw.rules_by_id) in
          (s, rw (← q) e, rw (← q) (sym k))
      | inr other ↦ v.keyed key r (ground (arith, get-put key_of key rule_of fw.rules_by_id))
    ];
  }

  -- What is stored after the rule went in under a free key.
  link-Stored :
      (j : PortRuleIndex)
      → get key_of fw.rules_by_id ≡ none
      → Stored j (link_rule key_of rule_of fw) ↔ (SameRule index j ⊎ Stored j fw)
  unfolding link_rule
  link-Stored j fresh = (to, from)
    where
      to :
          ((key : ℕ) × (r : PortRule) × (get key (put key_of rule_of fw.rules_by_id) ≡ some r)
            × SameRule r.index j)
          → SameRule index j ⊎ Stored j fw
      to (key, r, g, same) = elim (Bool-cases (key_of == key)) [
        | inl e ↦
            let q : rule_of ≡ r = ground (arith, get-put key_of key rule_of fw.rules_by_id) in
            let qi : index ≡ r.index = ap (λ (x : PortRule). x.index) q in inl (rw qi same)
        | inr e ↦ inr (key, r, ground (arith, get-put key_of key rule_of fw.rules_by_id), same)
      ]

      from :
          (SameRule index j ⊎ Stored j fw)
          → (key : ℕ) × (r : PortRule) × (get key (put key_of rule_of fw.rules_by_id) ≡ some r)
            × SameRule r.index j
      from (inl same) = (key_of, rule_of, get-put_self key_of rule_of fw.rules_by_id, same)
      from (inr (key, r, g, same)) =
          (key, r, ground (arith, get-put key_of key rule_of fw.rules_by_id), same)

  -- The same for the contents of the rules.
  link-Holds :
      (r : PortRule)
      → get key_of fw.rules_by_id ≡ none
      → Holds r (link_rule key_of rule_of fw) ↔ ((r ≡ rule_of) ⊎ Holds r fw)
  unfolding link_rule
  link-Holds r fresh = (to, from)
    where
      to :
          ((key : ℕ) × (get key (put key_of rule_of fw.rules_by_id) ≡ some r))
          → (r ≡ rule_of) ⊎ Holds r fw
      to (key, g) = elim (Bool-cases (key_of == key)) [
        | inl e ↦ inl (ground (arith, get-put key_of key rule_of fw.rules_by_id))
        | inr e ↦ inr (key, ground (arith, get-put key_of key rule_of fw.rules_by_id))
      ]

      from :
          ((r ≡ rule_of) ⊎ Holds r fw)
          → (key : ℕ) × (get key (put key_of rule_of fw.rules_by_id) ≡ some r)
      from (inl e) = (key_of, get-put_self key_of rule_of fw.rules_by_id ∙ ap some (sym e))
      from (inr (key, g)) = (key, ground (arith, get-put key_of key rule_of fw.rules_by_id))

-- What one call of AddRule does to the stored rules.
abbrev pub Added : PortRuleIndex → PortRule → Firewall → Bool → Firewall → Type 0
Added index rule fw ok fw' =
    ((ok ≡ true)
      × (index.node_id ≢ [])
      × (¬ Stored index fw)
      × ((j : PortRuleIndex) → Stored j fw' ↔ (SameRule index j ⊎ Stored j fw))
      × ((r : PortRule) → Holds r fw' ↔ ((r ≡ record rule { index = index }) ⊎ Holds r fw)))
    ⊎ ((ok ≡ false) × ((index.node_id ≡ []) ⊎ Stored index fw) × (fw'.rules_by_id ≡ fw.rules_by_id))

-- The key of a rule is taken exactly when the rule is stored.
module _ (index : PortRuleIndex) (fw : Firewall) (s : ℕ) (v : IsNumbered fw)
    (known : get index.node_id fw.short_id_by_node_id ≡ some s) where
  pub key_taken :
      (r : PortRule)
      → get (make_global_key s index.rule_id) fw.rules_by_id ≡ some r
      → Stored index fw
  key_taken r g =
      let (t, et, ek) = v.keyed _ r g in
      let bs = v.given _ s known in
      let bt = v.given _ t et in
      let b = v.below in
      let (st, ids) =
        (make_global_key_iff s t index.rule_id r.index.rule_id (omega arith) (omega arith)).0 ek in
      (_, r, g, (v.one_each r.index.node_id index.node_id t et (rw (← st) known), sym ids))

  pub key_free : get (make_global_key s index.rule_id) fw.rules_by_id ≡ none → ¬ Stored index fw
  key_free e (key, r, g, (en, ei)) =
      let (t, et, ek) = v.keyed key r g in
      let bt = v.given _ t et in
      let b = v.below in
      let et' : get index.node_id fw.short_id_by_node_id ≡ some t = rw (← en) et in
      let st : s ≡ t = ground arith in
      let same =
        (make_global_key_iff t s r.index.rule_id index.rule_id (omega arith) (omega arith)).1
          (sym st, ei) in
      ground arith

  insert_rule-Added :
      (rule : PortRule)
      → index.node_id ≢ []
      → let (ok, fw') = insert_rule (make_global_key s index.rule_id) index rule fw in
        Added index rule fw ok fw' × IsNumbered fw'
  unfolding insert_rule
  insert_rule-Added rule named =
      elim (Option-cases (get (make_global_key s index.rule_id) fw.rules_by_id)) [
        | inl e ↦
            rw (e, insert_rule)
              (
                inl (
                  refl,
                  named,
                  key_free e,
                  λ j. link-Stored index rule fw s j e,
                  λ r. link-Holds index rule fw s r e,
                ),
                link-IsNumbered index rule fw s v known,
              )
        | inr (r, e) ↦ rw (e, insert_rule) (inr (refl, inr (key_taken r e), refl), v)
      ]

Added-same :
    (index : PortRuleIndex) (rule : PortRule) (fw g fw' : Firewall) (ok : Bool)
    → g.rules_by_id ≡ fw.rules_by_id
    → Added index rule g ok fw'
    → Added index rule fw ok fw'
Added-same index rule fw g fw' ok e (inl (t, n, f, j, h)) =
    inl (t, n, rw e at f, λ k. rw e at (j k), λ r. rw e at (h r))
Added-same index rule fw g fw' ok e (inr (t, why, q)) = inr (t, rw e at why, q ∙ e)

add_rule-both :
    (index : PortRuleIndex) (rule : PortRule) (fw : Firewall)
    → IsNumbered fw
    → HasRoom fw
    → Added index rule fw (add_rule index rule fw).0 (add_rule index rule fw).1
      × IsNumbered (add_rule index rule fw).1
unfolding add_rule
add_rule-both index rule fw v room = elim (Bool-cases (bytes_beq index.node_id [])) [
  | inl e ↦ rw (e, add_rule) (inr (refl, inl ((bytes_beq_iff _ []).0 e), refl), v)
  | inr e ↦
      let made = (get_or_create_short_id index.node_id fw).1 in
      let w = created-IsNumbered index.node_id fw v room in
      let known = created_id index.node_id fw v room in
      let named : index.node_id ≢ [] = λ q. cc (e, (bytes_beq_iff index.node_id []).1 q) in
      let (a, n) = insert_rule-Added index made _ w known rule named in
      let key = make_global_key (get_or_create_short_id index.node_id fw).0 index.rule_id in
      let (ok, after) = insert_rule key index rule made in
      rw (e, add_rule)
        (Added-same index rule fw made after ok (created_rules index.node_id fw v room) a, n)
]

-- On a numbered firewall with a short id left, AddRule succeeds exactly when the node id is not empty and the rule is
-- not stored. Then the stored rules, contents included, are those before and the given rule under the
-- given index, up to 48 bits of the ids where only indexes are compared; a call that is refused
-- leaves the rules as they were.
pub add_rule-Added :
    (index : PortRuleIndex) (rule : PortRule) (fw : Firewall)
    → IsNumbered fw
    → HasRoom fw
    → Added index rule fw (add_rule index rule fw).0 (add_rule index rule fw).1
add_rule-Added index rule fw v room = (add_rule-both index rule fw v room).0

-- AddRule keeps the numbering of the nodes and the keys of the rules, while a short id is left.
pub add_rule-IsNumbered :
    (index : PortRuleIndex) (rule : PortRule) (fw : Firewall)
    → IsNumbered fw
    → HasRoom fw
    → IsNumbered (add_rule index rule fw).1
add_rule-IsNumbered index rule fw v room = (add_rule-both index rule fw v room).1
