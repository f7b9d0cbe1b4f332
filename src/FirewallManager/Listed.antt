-- ===== src/FirewallManager/Listed.antt =====
-- AddRule and ListPeerRules of pkg/services/firewallmanager.
use liberator_node_go.Prelude.{
  ℕ, ◌%◌, ◌^◌, ◌<◌, ◌≡◌, refl, sym, ap, subst, ◌∙◌, inl, inr, Bool, true, false, none, some, List,
  [], ◌∷◌, ◌++◌, map, arith, if◌then◌else◌, ◌==◌, keep, nat_eq, bytes_eq, Option-cases,
}
use liberator_node_go.Prelude.{keep-append, map-append, keep_same}
use liberator_node_go.Database.{RuleRow, get_peer_by_id, load_rules_by_peer_id}
use liberator_node_go.Database.Changes.{numbered, insert_peer_rule_cases}
use liberator_node_go.FirewallManager.{
  Operations, Manager, ModelRule, row_of, model_of, add_rule, add_inserted, publish_rule,
  list_peer_rules,
}
use liberator_node_go.FirewallManager.Backed.{with_row}

-- What an AddRule that returns a rule leaves in the tables.
stored_lem :
    {F : Type 0} (ops : Operations F) (inserted got : Bool) (peer : ℕ) (rule stored : ModelRule)
    (m : Manager F)
    → (add_rule ops inserted got peer rule m).0 ≡ some stored
    → (record rule { id = m.db.next_rule_id } ≡ stored)
      × ((add_rule ops inserted got peer rule m).1.db ≡ (with_row peer rule m).db)
unfolding add_rule add_inserted publish_rule
stored_lem ops false got peer rule stored m h = absurd (ground arith)
stored_lem ops true got peer rule stored m h =
    elim (insert_peer_rule_cases (row_of peer rule) m.db) [
      | inr (e, q) ↦
          let h' = subst (λ x. (add_inserted ops got peer rule x m).0 ≡ some stored) q h in
          absurd (ground arith)
      | inl (e, q) ↦
          let h' = subst (λ x. (add_inserted ops got peer rule x m).0 ≡ some stored) q h in
          subst
            (λ x.
              (record rule { id = m.db.next_rule_id } ≡ stored)
              × ((add_inserted ops got peer rule x m).1.db ≡ (with_row peer rule m).db))
            (sym q) (published h')
    ]
  where
    published :
        (publish_rule ops got peer rule m.db.next_rule_id (with_row peer rule m)).0 ≡ some stored
        → (record rule { id = m.db.next_rule_id } ≡ stored)
          × ((publish_rule ops got peer rule m.db.next_rule_id (with_row peer rule m)).1.db
              ≡ (with_row peer rule m).db)
    published h' =
        elim (Option-cases (if got then get_peer_by_id peer (with_row peer rule m).db else none)) [
          | inl n ↦ absurd (ground arith)
          | inr (row, n) ↦ (ground arith, rw (publish_rule, n) refl)
        ]

-- Take a rule with a port of 16 bits. If AddRule returns it, with its id, then ListPeerRules of its
-- peer gives the rules that it gave before, followed by that rule.
list_peer_rules-add_rule :
    {F : Type 0} (ops : Operations F) (inserted got : Bool) (peer : ℕ) (rule stored : ModelRule)
    (m : Manager F) (before : List ModelRule)
    → rule.port_range_start < 2 ^ 16
    → (add_rule ops inserted got peer rule m).0 ≡ some stored
    → list_peer_rules ops true peer m ≡ some before
    → list_peer_rules ops true peer (add_rule ops inserted got peer rule m).1
      ≡ some (before ++ stored ∷ [])
unfolding list_peer_rules load_rules_by_peer_id model_of row_of
list_peer_rules-add_rule ops inserted got peer rule stored m before port h b =
    let (e, d) = stored_lem ops inserted got peer rule stored m h in
    let row = numbered (row_of peer rule) m.db in
    let test = λ (r : RuleRow). r.peer_id == peer in
    let mine : (row.peer_id == peer) ≡ true = ground arith in
    let fits : rule.port_range_start % 2 ^ 16 ≡ rule.port_range_start = omega arith in
    let old : map model_of (keep test m.db.rules) ≡ before = ground arith in
    let new : model_of row ≡ stored = rw fits e in
    ap (λ x. some (map model_of (load_rules_by_peer_id peer x))) d
    ∙ ap some (
        ap (map model_of) (
          keep-append test m.db.rules (row ∷ [])
          ∙ ap (λ x. keep test m.db.rules ++ x) (keep_same test (row ∷ []) (mine, tt)))
        ∙ map-append model_of (keep test m.db.rules) (row ∷ [])
        ∙ ap (λ x. x ++ model_of row ∷ []) old
        ∙ ap (λ x. before ++ x ∷ []) new)
