-- ===== src/Firewall/Registry.antt =====
-- The keys of rules in pkg/firewall/firewall.go: a short id for each node, and 48 bits of the
-- rule's own id.
pub mod Add
pub mod Remove
use liberator_node_go.Prelude.{
  ℕ, zero, suc, ◌+◌, ◌-◌, ◌*◌, ◌/◌, ◌%◌, ◌^◌, ◌≤◌, ◌<◌, bit_and, bit_or, ◌≡◌, refl, sym, ap, ◌∙◌,
  ◌≢◌, ◌↔◌, ◌⊎◌, inl, inr, Bool, true, false, not, ◌&&◌, ◌||◌, Option, none, some, List, [], ◌∷◌,
  ◌++◌, map, arith, if◌then◌else◌, ltb, leb, ◌==◌, Bytes, codes, bytes_beq, bytes_beq_iff, keep,
  length, nat_eq, bytes_eq, ==_iff, Bool-cases, Option-cases, In, All,
}
use liberator_node_go.Prelude.Map.{
  get, put, erase, get-put, get-erase, get-put_self, get-put_ne, get-erase_self, get-erase_ne,
}
use liberator_node_go.Prelude.Bits.{or_shifted, and_low_mask}
use liberator_node_go.Firewall.Types.{PortRuleIndex, PortRule, Firewall}
use liberator_node_go.Firewall.Keys.{make_global_key}
use liberator_node_go.Firewall.{
  get_short_id, get_or_create_short_id, insert_rule, link_rule, unlink_rule, add_rule, exists_rule,
  remove_rule, drop_unauthorized_holes,
}

make_global_key_lem : (s a : ℕ) → s < 2 ^ 16 → make_global_key s a ≡ s * 2 ^ 48 + a % 2 ^ 48
unfolding make_global_key
make_global_key_lem s a h =
    ground (arith, and_low_mask 48 a, or_shifted 48 s (a % 2 ^ 48) (omega arith))

-- For short ids of 16 bits the key tells nodes apart, and rules of one node up to 48 bits of
-- their ids; past that two rules of one node share a key.
pub make_global_key_iff :
    (s t a b : ℕ)
    → s < 2 ^ 16
    → t < 2 ^ 16
    → (make_global_key s a ≡ make_global_key t b) ↔ ((s ≡ t) × (a % 2 ^ 48 ≡ b % 2 ^ 48))
make_global_key_iff s t a b p q =
    let x = make_global_key_lem s a p in
    let y = make_global_key_lem t b q in (λ h. (omega arith, omega arith), λ h. omega arith)

-- The same rule, as the key of a rule can tell.
abbrev pub SameRule : PortRuleIndex → PortRuleIndex → Type 0
SameRule i j = (i.node_id ≡ j.node_id) × (i.rule_id % 2 ^ 48 ≡ j.rule_id % 2 ^ 48)

-- Short ids are given out from 1 on, a new one to each node.
pub record IsNumbered (fw : Firewall) : Type 0 where
  pub below : fw.next_short_id < 2 ^ 16
  pub given :
      (node : Bytes) (s : ℕ) → get node fw.short_id_by_node_id ≡ some s → s ≤ fw.next_short_id
  pub one_each :
      (m n : Bytes) (s : ℕ)
      → get m fw.short_id_by_node_id ≡ some s
      → get n fw.short_id_by_node_id ≡ some s
      → m ≡ n
  pub keyed :
      (key : ℕ) (r : PortRule)
      → get key fw.rules_by_id ≡ some r
      → (s : ℕ) × (get r.index.node_id fw.short_id_by_node_id ≡ some s)
        × (key ≡ make_global_key s r.index.rule_id)

-- What ExistsRule answers: a stored rule whose index agrees, up to 48 bits of the id.
abbrev pub Stored : PortRuleIndex → Firewall → Type 0
Stored index fw =
    (key : ℕ) × (r : PortRule) × (get key fw.rules_by_id ≡ some r) × SameRule r.index index

-- The rule is stored, with this content.
abbrev pub Holds : PortRule → Firewall → Type 0
Holds r fw = (key : ℕ) × (get key fw.rules_by_id ≡ some r)

exists_rule_sound :
    (index : PortRuleIndex) (fw : Firewall)
    → IsNumbered fw
    → exists_rule index fw ≡ true
    → Stored index fw
unfolding exists_rule get_short_id
exists_rule_sound index fw v h = elim (Option-cases (get index.node_id fw.short_id_by_node_id)) [
  | inl e ↦ absurd (ground arith)
  | inr (s, e) ↦ elim (Option-cases (get (make_global_key s index.rule_id) fw.rules_by_id)) [
    | inl q ↦ absurd (ground arith)
    | inr (r, q) ↦
        let (t, et, ek) = v.keyed _ r q in
        let bs = v.given _ s e in
        let bt = v.given _ t et in
        let b = v.below in
        let (st, ids) =
          (make_global_key_iff s t index.rule_id r.index.rule_id (omega arith) (omega arith)).0
            ek in
        (
          make_global_key s index.rule_id,
          r,
          q,
          (v.one_each r.index.node_id index.node_id t et (rw (← st) e), sym ids),
        )
  ]
]

exists_rule_complete :
    (index : PortRuleIndex) (fw : Firewall)
    → IsNumbered fw
    → Stored index fw
    → exists_rule index fw ≡ true
unfolding exists_rule get_short_id
exists_rule_complete index fw v (key, r, q, (en, ei)) =
    let (s, es, ek) = v.keyed key r q in
    let bs = v.given _ s es in
    let b = v.below in
    let same =
      (make_global_key_iff s s r.index.rule_id index.rule_id (omega arith) (omega arith)).1
        (refl, ei) in
    let here : get index.node_id fw.short_id_by_node_id ≡ some s = rw (← en) es in
    let there : get (make_global_key s index.rule_id) fw.rules_by_id ≡ some r =
      rw (← same, ← ek) q in
    ground arith

-- On a numbered firewall ExistsRule answers true exactly when a rule of that node is stored whose id agrees in its lower
-- 48 bits.
pub exists_rule_iff :
    (index : PortRuleIndex) (fw : Firewall)
    → IsNumbered fw
    → (exists_rule index fw ≡ true) ↔ Stored index fw
exists_rule_iff index fw v = (exists_rule_sound index fw v, exists_rule_complete index fw v)
