-- ===== src/FirewallManager/Engine.antt =====
-- pkg/firewall/firewall.go behind the router keeps the laws that pkg/services/firewallmanager
-- relies on.
use liberator_node_go.Prelude.{
  ℕ, ◌+◌, ◌%◌, ◌^◌, ◌<◌, ◌≡◌, refl, sym, ap, subst, ◌∙◌, ◌≢◌, ◌↔◌, ◌⊎◌, inl, inr, true, false,
  Option, none, some, [], arith, if◌then◌else◌, ◌==◌, Bytes, bytes_beq, bytes_beq_iff, nat_eq,
  bytes_eq, Option-cases,
}
use liberator_node_go.Prelude.Map.{get, put, get-put, get-erase, get-put_self}
use liberator_node_go.Firewall
use liberator_node_go.Firewall.{
  get_or_create_short_id, get_short_id, insert_rule, link_rule, unlink_rule,
  drop_unauthorized_holes,
}
use liberator_node_go.Firewall.Types.{PortRuleIndex, PortRule, Firewall}
use liberator_node_go.Firewall.Keys.{make_global_key}
use liberator_node_go.Firewall.Registry.{IsNumbered, make_global_key_iff}
use liberator_node_go.Firewall.Registry.Add.{HasRoom, created-IsNumbered, link-IsNumbered}
use liberator_node_go.Firewall.Registry.Remove.{remove_rule-IsNumbered}
use liberator_node_go.Router
use liberator_node_go.Router.{Router, notify_firewall_event}
use liberator_node_go.FirewallManager.{Operations}
use liberator_node_go.FirewallManager.Laws.{Laws, stamped, or_else}

-- The rule of the node with this number.
unfoldable pub find_rule : Bytes → ℕ → Firewall → Option PortRule
find_rule node j fw = elim (get node fw.short_id_by_node_id) [
  | none ↦ none
  | some s ↦ get (make_global_key s j) fw.rules_by_id
]

-- The firewall numbers its nodes, and has a short id for this one, or one left.
abbrev pub IsReady : Bytes → Firewall → Type 0
IsReady node fw =
    IsNumbered fw × (HasRoom fw ⊎ ((s : ℕ) × (get node fw.short_id_by_node_id ≡ some s)))

-- What AddRule works on: a firewall that knows the node, with the same rules.
abbrev Made : Bytes → Firewall → ℕ → Firewall → Type 0
Made node fw s made =
    (get_or_create_short_id node fw ≡ (s, made))
    × (get node made.short_id_by_node_id ≡ some s)
    × IsNumbered made
    × ((j : ℕ) → find_rule node j made ≡ find_rule node j fw)

made_lem :
    (node : Bytes) (fw : Firewall)
    → IsReady node fw
    → (s : ℕ) × (made : Firewall) × Made node fw s made
unfolding get_or_create_short_id find_rule
made_lem node fw (v, ready) = elim (Option-cases (get node fw.short_id_by_node_id)) [
  | inr (s, e) ↦ (s, fw, (rw (get_or_create_short_id, e), e, v, λ j. refl))
  | inl e ↦
      let room : HasRoom fw = elim ready [ inl r ↦ r | inr (s, k) ↦ absurd (ground arith) ] in
      let s = (fw.next_short_id + 1) % 2 ^ 16 in
      let made = record fw {
        next_short_id = s;
        short_id_by_node_id = put node s fw.short_id_by_node_id;
      } in
      let same : get_or_create_short_id node fw ≡ (s, made) = rw (get_or_create_short_id, e) in
      let w : IsNumbered made =
        subst (λ p. IsNumbered p.1) same (created-IsNumbered node fw v room) in
      let k = get-put_self node s fw.short_id_by_node_id in
      (s, made, (same, k, w, λ j. rw (find_rule, k, e) (free j room)))
]
  where
    free :
        (j : ℕ)
        → HasRoom fw
        → get (make_global_key ((fw.next_short_id + 1) % 2 ^ 16) j) fw.rules_by_id ≡ none
    free j room =
        let s = (fw.next_short_id + 1) % 2 ^ 16 in
        elim (Option-cases (get (make_global_key s j) fw.rules_by_id)) [
          | inl e ↦ e
          | inr (r, e) ↦
              let (t, known, key) = v.keyed _ r e in
              let bound = v.given _ t known in
              let (eq, ids) =
                (make_global_key_iff s t j r.index.rule_id (omega arith) (omega arith)).0 key in
              absurd (omega arith)
        ]

module _ (node : Bytes) (fw : Firewall) (s : ℕ) (v : IsNumbered fw)
    (known : get node fw.short_id_by_node_id ≡ some s) where
  -- Two ids of the node have the same key exactly if they agree in 48 bits.
  same_key :
      (id j : ℕ)
      → j < 2 ^ 48
      → (make_global_key s id ≡ make_global_key s j) ↔ ((id % 2 ^ 48 == j) ≡ true)
  same_key id j small =
      let bound = v.given _ s known in
      let below = v.below in
      let k = make_global_key_iff s s id j (omega arith) (omega arith) in
      (λ e. ground (arith, (k.0 e).1), λ e. k.1 (refl, ground arith))

  insert-find :
      (id j : ℕ) (rule : PortRule)
      → j < 2 ^ 48
      → find_rule node j
          (insert_rule (make_global_key s id) (record { node_id = node; rule_id = id }) rule fw).1
        ≡ (if id % 2 ^ 48 == j
            then or_else (find_rule node j fw) (stamped node id rule)
            else find_rule node j fw)
  unfolding insert_rule link_rule find_rule
  insert-find id j rule small = elim (Option-cases (get (make_global_key s id) fw.rules_by_id)) [
    | inr (old, e) ↦ rw (insert_rule, e) (ground (arith, same_key id j small))
    | inl e ↦ ground (
      arith,
      same_key id j small,
      get-put (make_global_key s id) (make_global_key s j) (stamped node id rule) fw.rules_by_id,
    )
  ]

  insert-IsReady :
      (id : ℕ) (rule : PortRule)
      → IsReady node
          (insert_rule (make_global_key s id) (record { node_id = node; rule_id = id }) rule fw).1
  unfolding insert_rule
  insert-IsReady id rule =
      let index : PortRuleIndex = record { node_id = node; rule_id = id } in
      elim (Option-cases (get (make_global_key s id) fw.rules_by_id)) [
        | inr (old, e) ↦ rw (insert_rule, e) (v, inr (s, known))
        | inl e ↦
            rw (insert_rule, e)
              (link-IsNumbered index rule fw s v known, unfold link_rule in inr (s, known))
      ]

module _ (node : Bytes) (named : node ≢ []) where
  add_lem :
      (id : ℕ) (rule : PortRule) (fw : Firewall)
      → IsReady node fw
      → (s : ℕ) × (made : Firewall) × (Made node fw s made
          × (Firewall.add_rule (record { node_id = node; rule_id = id }) rule fw
              ≡ insert_rule
                  (make_global_key s id)
                  (record { node_id = node; rule_id = id })
                  rule
                  made))
  unfolding Firewall.add_rule
  add_lem id rule fw w =
      let (s, made, (same, known, v, finds)) = made_lem node fw w in
      let e : bytes_beq node [] ≡ false = ground (arith, bytes_beq_iff node []) in
      (s, made, ((same, known, v, finds), rw (Firewall.add_rule, e, same)))

  add-IsReady :
      (id : ℕ) (rule : PortRule) (fw : Firewall)
      → IsReady node fw
      → IsReady node (Firewall.add_rule (record { node_id = node; rule_id = id }) rule fw).1
  add-IsReady id rule fw w =
      let (s, made, ((same, known, v, finds), e)) = add_lem id rule fw w in
      subst (λ p. IsReady node p.1) (sym e) (insert-IsReady node made s v known id rule)

  add-find :
      (id j : ℕ) (rule : PortRule) (fw : Firewall)
      → IsReady node fw
      → j < 2 ^ 48
      → find_rule node j (Firewall.add_rule (record { node_id = node; rule_id = id }) rule fw).1 ≡ (
          if id % 2 ^ 48 == j
          then or_else (find_rule node j fw) (stamped node id rule)
          else find_rule node j fw)
  add-find id j rule fw w small =
      let (s, made, ((same, known, v, finds), e)) = add_lem id rule fw w in
      let step = insert-find node made s v known id j rule small in
      ap (λ p. find_rule node j p.1) e
      ∙ subst
          (λ f.
            find_rule node j
              (insert_rule (make_global_key s id) (record { node_id = node; rule_id = id }) rule
                made).1
            ≡ (if id % 2 ^ 48 == j then or_else f (stamped node id rule) else f))
          (finds j) step

-- What RemoveRule leaves for the numbers of the node.
remove-find :
    (node : Bytes) (id j : ℕ) (fw : Firewall)
    → IsReady node fw
    → j < 2 ^ 48
    → find_rule node j (Firewall.remove_rule (record { node_id = node; rule_id = id }) fw).1
      ≡ (if id % 2 ^ 48 == j then none else find_rule node j fw)
unfolding Firewall.remove_rule get_short_id find_rule unlink_rule drop_unauthorized_holes
remove-find node id j fw (v, ready) small = elim (Option-cases (get node fw.short_id_by_node_id)) [
  | inl e ↦ rw (Firewall.remove_rule, get_short_id, e) (ground arith)
  | inr (s, e) ↦ elim (Option-cases (get (make_global_key s id) fw.rules_by_id)) [
    | inl g ↦
        rw (Firewall.remove_rule, get_short_id, e, g)
          (ground (arith, same_key node fw s v e id j small))
    | inr (rule, g) ↦
        rw (Firewall.remove_rule, get_short_id, e, g)
          (ground (
            arith,
            same_key node fw s v e id j small,
            get-erase (make_global_key s id) (make_global_key s j) fw.rules_by_id,
          ))
  ]
]

remove_keeps :
    (index : PortRuleIndex) (fw : Firewall)
    → ((Firewall.remove_rule index fw).1.short_id_by_node_id ≡ fw.short_id_by_node_id)
      × ((Firewall.remove_rule index fw).1.next_short_id ≡ fw.next_short_id)
unfolding Firewall.remove_rule unlink_rule drop_unauthorized_holes
remove_keeps index fw = ground arith

remove-IsReady :
    (node : Bytes) (index : PortRuleIndex) (fw : Firewall)
    → IsReady node fw
    → IsReady node (Firewall.remove_rule index fw).1
remove-IsReady node index fw (v, ready) =
    let (e, n) = remove_keeps index fw in (remove_rule-IsNumbered index fw v, rw (e, n) ready)

-- The router as the firewall of the manager: app.go passes it to New.
abbrev pub router_operations : Operations Router
router_operations = record { add_rule = Router.add_rule; remove_rule = Router.remove_rule }

add_rule-firewall :
    (index : PortRuleIndex) (rule : PortRule) (r : Router)
    → (Router.add_rule index rule r).1.firewall ≡ (Firewall.add_rule index rule r.firewall).1
unfolding Router.add_rule notify_firewall_event
add_rule-firewall index rule r = ground arith

remove_rule-firewall :
    (index : PortRuleIndex) (r : Router)
    → (Router.remove_rule index r).1.firewall ≡ (Firewall.remove_rule index r.firewall).1
unfolding Router.remove_rule notify_firewall_event
remove_rule-firewall index r = ground arith

-- The router keeps the laws, for a node with a name.
pub router_laws : (node : Bytes) → node ≢ [] → Laws router_operations node
router_laws node named = record {
  find = λ j r. find_rule node j r.firewall;
  IsValid = λ r. IsReady node r.firewall;
  add_valid = λ id rule r v.
      rw (add_rule-firewall (record { node_id = node; rule_id = id }) rule r)
        (add-IsReady node named id rule r.firewall v);
  remove_valid = λ id r v.
      rw (remove_rule-firewall (record { node_id = node; rule_id = id }) r)
        (remove-IsReady node (record { node_id = node; rule_id = id }) r.firewall v);
  find_add = λ id j rule r v small.
      rw (add_rule-firewall (record { node_id = node; rule_id = id }) rule r)
        (add-find node named id j rule r.firewall v small);
  find_remove = λ id j r v small.
      rw (remove_rule-firewall (record { node_id = node; rule_id = id }) r)
        (remove-find node id j r.firewall v small);
}

pub router_valid :
    (node : Bytes) (named : node ≢ []) (r : Router)
    → IsReady node r.firewall
    → (router_laws node named).IsValid r
unfolding router_laws
router_valid node named r v = v

pub router_find :
    (node : Bytes) (named : node ≢ []) (j : ℕ) (r : Router)
    → (router_laws node named).find j r ≡ find_rule node j r.firewall
unfolding router_laws
router_find node named j r = refl
