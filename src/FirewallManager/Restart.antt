-- ===== src/FirewallManager/Restart.antt =====
-- Run of pkg/services/firewallmanager: the rules of the database after a restart.
use liberator_node_go.Prelude.{
  ℕ, ◌%◌, ◌^◌, ◌<◌, ◌≡◌, refl, sym, ap, subst, ◌∙◌, ◌≢◌, ◌⊎◌, inl, inr, true, false, none, some,
  List, [], ◌∷◌, arith, ◌==◌, Bytes, nat_eq, bytes_eq, Bool-cases, Option-cases, In,
}
use liberator_node_go.Database.{LoadAllRulesRow, load_all_rules}
use liberator_node_go.FirewallManager.{Operations, Manager, rule_from_row, add_rows, run}
use liberator_node_go.FirewallManager.Laws.{Laws, stamped, Backed, Published, IsManager}
use liberator_node_go.FirewallManager.Published.{loaded_once, loaded_below}

module _ {F : Type 0} (ops : Operations F) (node : Bytes) (laws : Laws ops node) where
  -- A free number takes the rule of a row with that id, if there is one.
  find_add_rows :
      (rows : List LoadAllRulesRow) (fw : F) (j : ℕ)
      → laws.IsValid fw
      → j < 2 ^ 48
      → ((row : LoadAllRulesRow) → In row rows → row.id < 2 ^ 48)
      → ((laws.find j (add_rows ops node rows fw) ≡ laws.find j fw)
          × ((row : LoadAllRulesRow) → In row rows → row.id ≡ j → laws.find j fw ≢ none))
        ⊎ ((laws.find j fw ≡ none)
            × ((row : LoadAllRulesRow) × In row rows
                × (row.id ≡ j)
                × (laws.find j (add_rows ops node rows fw)
                    ≡ some (stamped node j (rule_from_row row)))))
  unfolding add_rows
  find_add_rows [] fw j v small ids = inl (refl, λ row m. elim m [ ])
  find_add_rows (row ∷ rows) fw j v small ids =
      let fw' =
        (ops.add_rule (record { node_id = node; rule_id = row.id }) (rule_from_row row) fw).1 in
      let v' = laws.add_valid row.id (rule_from_row row) fw v in
      let step = laws.find_add row.id j (rule_from_row row) fw v small in
      let below = ids row (inl refl) in
      let rest = find_add_rows rows fw' j v' small (λ r m. ids r (inr m)) in
      elim (Bool-cases (row.id == j)) [
        | inr t ↦
            let ne : (row.id % 2 ^ 48 == j) ≡ false = ground arith in
            let same : laws.find j fw' ≡ laws.find j fw = step ∙ rw ne in
            elim rest [
              | inr (free, (r, m, e, q)) ↦ inr (sym same ∙ free, (r, inr m, e, q))
              | inl (q, others) ↦ inl (
                q ∙ same,
                λ r m e. elim m [
                  | inl k ↦ absurd (ground arith)
                  | inr k ↦ λ n. others r k e (same ∙ n)
                ],
              )
            ]
        | inl t ↦
            let eq : (row.id % 2 ^ 48 == j) ≡ true = ground arith in
            elim (Option-cases (laws.find j fw)) [
              | inr (old, f) ↦
                  let same : laws.find j fw' ≡ some old = step ∙ rw (eq, f) in
                  elim rest [
                    | inr (free, rest) ↦ absurd (ground arith)
                    | inl (q, others) ↦ inl (q ∙ same ∙ sym f, λ r m e n. ground arith)
                  ]
              | inl f ↦
                  let id : row.id ≡ j = ground arith in
                  let new : laws.find j fw' ≡ some (stamped node row.id (rule_from_row row)) =
                    step ∙ rw (eq, f) in
                  elim rest [
                    | inr (free, rest) ↦ absurd (ground arith)
                    | inl (q, others) ↦ inr (
                      f,
                      (
                        row,
                        inl refl,
                        id,
                        q ∙ new ∙ ap (λ k. some (stamped node k (rule_from_row row))) id,
                      ),
                    )
                  ]
            ]
      ]

-- Whatever happened before, after a start of the node the firewall holds exactly the rules of
-- the database. Take a firewall that keeps the laws of its interface and holds no rule of this
-- node, and a manager of this node whose rule ids are within 48 bits. If Run reads the rules, it
-- returns no error, each rule of the node in the firewall is one that LoadAllRules gives, and
-- each rule that it gives is in the firewall, with the same contents.
pub run-Published :
    {F : Type 0} (ops : Operations F) (node : Bytes) (laws : Laws ops node) (m : Manager F)
    → IsManager ops node laws m
    → ((j : ℕ) → j < 2 ^ 48 → laws.find j m.firewall ≡ none)
    → ((run ops true m).0 ≡ true)
      × Backed ops node laws (run ops true m).1.db (run ops true m).1.firewall
      × Published ops node laws (run ops true m).1.db (run ops true m).1.firewall
unfolding run
run-Published ops node laws m (n, d, v, s) empty =
    let rows = load_all_rules m.db in
    let found = λ (j : ℕ) (small : j < 2 ^ 48).
      find_add_rows ops node laws rows m.firewall j v small
        (λ row i. omega (arith, loaded_below m.db row d i)) in
    (
      refl,
      λ id rule small f.
          let f' = subst (λ k. laws.find id (add_rows ops k rows m.firewall) ≡ some rule) n f in
          elim (found id small) [
            | inl (e, others) ↦ absurd (cc (empty id small, e, f'))
            | inr (free, (row, i, e, q)) ↦ (row, i, e, ground arith)
          ],
      λ row i.
          let below = loaded_below m.db row d i in
          elim (found row.id (omega arith)) [
            | inl (e, others) ↦ absurd (others row i refl (empty row.id (omega arith)))
            | inr (free, (other, j, e, q)) ↦
                let same = loaded_once m.db other row d j i e in
                rw n (q ∙ ap (λ r. some (stamped node row.id (rule_from_row r))) same)
          ],
    )
