-- ===== src/FirewallManager/Laws.antt =====
-- What pkg/services/firewallmanager relies on in a firewall, and how its rules and those of the
-- database can agree.
use liberator_node_go.Prelude.{
  ℕ, ◌%◌, ◌^◌, ◌≤◌, ◌<◌, ◌≡◌, refl, ◌∙◌, ◌≢◌, ◌⊎◌, inl, inr, Option, none, some, List, [], ◌∷◌,
  arith, if◌then◌else◌, ◌==◌, Bytes, nat_eq, bytes_eq, Bool-cases, In,
}
use liberator_node_go.Firewall.Types.{PortRule}
use liberator_node_go.Database.{RuleRow, LoadAllRulesRow, Database, load_all_rules}
use liberator_node_go.Database.Ids.{IsDatabase}
use liberator_node_go.FirewallManager.{Operations, Manager, rule_from_row, add_rows, remove_rows}

-- The rule as the firewall stores it.
abbrev pub stamped : Bytes → ℕ → PortRule → PortRule
stamped node id rule = record rule { index = record { node_id = node; rule_id = id } }

-- The rule that was there, or the new one.
abbrev pub or_else : Option PortRule → PortRule → Option PortRule
or_else none rule = some rule
or_else (some old) rule = some old

-- A firewall keeps a rule of the node for each number below 2 ^ 48, the lower 48 bits of its id:
-- the first that was added and not removed since.
pub record Laws {F : Type 0} (ops : Operations F) (node : Bytes) : Type 1 where
  pub find : ℕ → F → Option PortRule
  pub IsValid : F → Type 0
  pub add_valid :
      (id : ℕ) (rule : PortRule) (fw : F)
      → IsValid fw
      → IsValid (ops.add_rule (record { node_id = node; rule_id = id }) rule fw).1
  pub remove_valid :
      (id : ℕ) (fw : F)
      → IsValid fw
      → IsValid (ops.remove_rule (record { node_id = node; rule_id = id }) fw).1
  pub find_add :
      (id j : ℕ) (rule : PortRule) (fw : F)
      → IsValid fw
      → j < 2 ^ 48
      → find j (ops.add_rule (record { node_id = node; rule_id = id }) rule fw).1
        ≡ (if id % 2 ^ 48 == j then or_else (find j fw) (stamped node id rule) else find j fw)
  pub find_remove :
      (id j : ℕ) (fw : F)
      → IsValid fw
      → j < 2 ^ 48
      → find j (ops.remove_rule (record { node_id = node; rule_id = id }) fw).1
        ≡ (if id % 2 ^ 48 == j then none else find j fw)

module _ {F : Type 0} (ops : Operations F) (node : Bytes) (laws : Laws ops node) where
  -- A rule of the node in the firewall is one of the database, with the same contents.
  abbrev pub Backed : Database → F → Type 0
  Backed db fw =
      (id : ℕ) (rule : PortRule)
      → id < 2 ^ 48
      → laws.find id fw ≡ some rule
      → (row : LoadAllRulesRow) × In row (load_all_rules db)
        × (row.id ≡ id)
        × (stamped node id (rule_from_row row) ≡ rule)

  -- A rule of the database is in the firewall, with the same contents.
  abbrev pub Published : Database → F → Type 0
  Published db fw =
      (row : LoadAllRulesRow)
      → In row (load_all_rules db)
      → laws.find row.id fw ≡ some (stamped node row.id (rule_from_row row))

  -- A manager of this node, with ids of at most 48 bits.
  abbrev pub IsManager : Manager F → Type 0
  IsManager m =
      (m.node ≡ node) × IsDatabase m.db × laws.IsValid m.firewall × (m.db.next_rule_id ≤ 2 ^ 48)

  pub remove_rows-IsValid :
      (rows : List RuleRow) (fw : F) → laws.IsValid fw → laws.IsValid (remove_rows ops node rows fw)
  unfolding remove_rows
  remove_rows-IsValid [] fw v = v
  remove_rows-IsValid (row ∷ rows) fw v = remove_rows-IsValid rows _ (laws.remove_valid row.id fw v)

  pub find_remove_rows :
      (rows : List RuleRow) (fw : F) (j : ℕ)
      → laws.IsValid fw
      → j < 2 ^ 48
      → ((laws.find j (remove_rows ops node rows fw) ≡ laws.find j fw)
          × ((row : RuleRow) → In row rows → row.id % 2 ^ 48 ≢ j))
        ⊎ ((laws.find j (remove_rows ops node rows fw) ≡ none)
            × ((row : RuleRow) × In row rows × (row.id % 2 ^ 48 ≡ j)))
  unfolding remove_rows
  find_remove_rows [] fw j v small = inl (refl, λ row m. elim m [ ])
  find_remove_rows (row ∷ rows) fw j v small =
      let step = laws.find_remove row.id j fw v small in
      elim (find_remove_rows rows _ j (laws.remove_valid row.id fw v) small) [
        | inr (e, (r, m, q)) ↦ inr (e, (r, inr m, q))
        | inl (e, other) ↦ elim (Bool-cases (row.id % 2 ^ 48 == j)) [
          | inl t ↦ inr (e ∙ step ∙ rw t, (row, inl refl, ground arith))
          | inr t ↦ inl (
            e ∙ step ∙ rw t,
            λ r m. elim m [ inl same ↦ ground arith | inr later ↦ other r later ],
          )
        ]
      ]

  pub add_rows-IsValid :
      (rows : List LoadAllRulesRow) (fw : F)
      → laws.IsValid fw
      → laws.IsValid (add_rows ops node rows fw)
  unfolding add_rows
  add_rows-IsValid [] fw v = v
  add_rows-IsValid (row ∷ rows) fw v = add_rows-IsValid rows _ (laws.add_valid row.id _ fw v)
