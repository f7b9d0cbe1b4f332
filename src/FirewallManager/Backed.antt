-- ===== src/FirewallManager/Backed.antt =====
-- Calls of pkg/services/firewallmanager whose queries may fail: the firewall never holds a rule
-- of the node that the database does not.
use liberator_node_go.Prelude.{
  ℕ, ◌+◌, ◌%◌, ◌^◌, ◌<◌, ◌≡◌, refl, ap, subst, ◌∙◌, ◌⊎◌, inl, inr, Bool, true, false, none, some,
  List, [], ◌∷◌, ◌++◌, arith, if◌then◌else◌, ◌==◌, Bytes, nat_eq, bytes_eq, Bool-cases,
  Option-cases, In,
}
use liberator_node_go.Prelude.{In-append_left, In-append_right, In-append_cases}
use liberator_node_go.Database.{
  PeerRow, RuleRow, LoadAllRulesRow, Database, get_peer_by_id, load_all_rules,
}
use liberator_node_go.Database.Ids.{
  Loads, joined, load_all_rules_sound, load_all_rules_complete, find_first-In,
}
use liberator_node_go.Database.Changes.{numbered, insert_peer_rule_cases}
use liberator_node_go.FirewallManager.{
  Operations, Manager, ModelRule, rule_from_row, rule_of, row_of, add_rule, add_inserted,
  publish_rule, remove_rule, remove_all_peer_rules,
}
use liberator_node_go.FirewallManager.Laws.{Laws, stamped, Backed, IsManager}

-- The calls that change something, each with which of its queries are carried out.
pub data Call : Type 0 where
  call_add : Bool → Bool → ℕ → ModelRule → Call
  call_remove : Bool → ℕ → Call
  call_remove_all : Bool → Bool → ℕ → Call

-- A port of the API is a uint16.
abbrev pub IsCall : Call → Type 0
IsCall (call_add inserted got peer rule) = rule.port_range_start < 2 ^ 16
IsCall (call_remove deleted id) = Unit
IsCall (call_remove_all loaded deleted peer) = Unit

module _ {F : Type 0} (ops : Operations F) where
  unfoldable pub call : Call → Manager F → Manager F
  call (call_add inserted got peer rule) m = (add_rule ops inserted got peer rule m).1
  call (call_remove deleted id) m = (remove_rule ops deleted id m).1
  call (call_remove_all loaded deleted peer) m = (remove_all_peer_rules ops loaded deleted peer m).1

  unfoldable pub calls : List Call → Manager F → Manager F
  calls [] m = m
  calls (c ∷ cs) m = calls cs (call c m)

-- What AddRule leaves: the manager as it was, a new row alone, or a new row and its rule.
abbrev pub with_row : {F : Type 0} → ℕ → ModelRule → Manager F → Manager F
with_row peer rule m = record m {
  db = record m.db {
    rules = m.db.rules ++ numbered (row_of peer rule) m.db ∷ [];
    next_rule_id = m.db.next_rule_id + 1;
  };
}

abbrev pub with_rule : {F : Type 0} → Operations F → ℕ → PeerRow → ModelRule → Manager F → Manager F
with_rule ops peer row rule m = record (with_row peer rule m) {
  firewall =
      (ops.add_rule (record { node_id = m.node; rule_id = m.db.next_rule_id }) (rule_of row rule)
        m.firewall).1;
}

pub add_rule_cases :
    {F : Type 0} (ops : Operations F) (inserted got : Bool) (peer : ℕ) (rule : ModelRule)
    (m : Manager F)
    → ((add_rule ops inserted got peer rule m).1 ≡ m)
      ⊎ (((add_rule ops inserted got peer rule m).1 ≡ with_row peer rule m)
          × ((got ≡ false) ⊎ (get_peer_by_id peer m.db ≡ none)))
      ⊎ ((row : PeerRow) × (get_peer_by_id peer m.db ≡ some row)
          × ((add_rule ops inserted got peer rule m).1 ≡ with_rule ops peer row rule m))
unfolding add_rule add_inserted publish_rule get_peer_by_id
add_rule_cases ops false got peer rule m = inl refl
add_rule_cases ops true got peer rule m = elim (insert_peer_rule_cases (row_of peer rule) m.db) [
  | inr (e, q) ↦ inl (rw (add_rule, add_inserted, q))
  | inl (e, q) ↦ elim (Bool-cases got) [
    | inr g ↦ inr (inl (rw (add_rule, add_inserted, q, g, publish_rule), inl g))
    | inl g ↦ elim (Option-cases (get_peer_by_id peer m.db)) [
      | inl n ↦ inr (inl (rw (add_rule, add_inserted, q, g, publish_rule, n), inr n))
      | inr (row, n) ↦ inr (inr (row, n, rw (add_rule, add_inserted, q, g, publish_rule, n)))
    ]
  ]
]

-- The rules that are loaded after a row was added: those before, and that one with its peer.
pub with_row-Loads :
    {F : Type 0} (peer : ℕ) (rule : ModelRule) (m : Manager F) (r : RuleRow) (p : PeerRow)
    → Loads (with_row peer rule m).db r p
    → Loads m.db r p ⊎ ((numbered (row_of peer rule) m.db ≡ r) × In p m.db.peers × (peer ≡ p.id))
unfolding row_of
with_row-Loads peer rule m r p (i, j, e) =
    elim (In-append_cases r m.db.rules (numbered (row_of peer rule) m.db ∷ []) i) [
      | inl old ↦ inl (old, j, e)
      | inr (inl new) ↦ inr (new, j, ap (λ (x : RuleRow). x.peer_id) new ∙ e)
      | inr (inr n) ↦ elim n [ ]
    ]

module _ {F : Type 0} (ops : Operations F) (node : Bytes) (laws : Laws ops node) where
  -- Rows that are only added keep the firewall backed.
  grow-Backed :
      (db db' : Database) (fw : F)
      → ((r : RuleRow) (p : PeerRow) → Loads db r p → Loads db' r p)
      → Backed ops node laws db fw
      → Backed ops node laws db' fw
  grow-Backed db db' fw more b id rule small f =
      let (row, i, e, s) = b id rule small f in
      let (r, p, l, q) = load_all_rules_sound db row i in
      (
        row,
        subst (λ x. In x (load_all_rules db')) q (load_all_rules_complete db' r p (more r p l)),
        e,
        s,
      )

  pub with_row-Backed :
      (peer : ℕ) (rule : ModelRule) (m : Manager F)
      → Backed ops node laws m.db m.firewall
      → Backed ops node laws (with_row peer rule m).db m.firewall
  with_row-Backed peer rule m =
      grow-Backed m.db (with_row peer rule m).db m.firewall
        (λ r p (i, j, e). (In-append_left r m.db.rules _ i, j, e))

  -- The number of the next row is free in a backed firewall.
  pub next_free :
      (m : Manager F)
      → IsManager ops node laws m
      → Backed ops node laws m.db m.firewall
      → m.db.next_rule_id < 2 ^ 48
      → laws.find m.db.next_rule_id m.firewall ≡ none
  next_free m (n, d, v, s) b small = elim (Option-cases (laws.find m.db.next_rule_id m.firewall)) [
    | inl e ↦ e
    | inr (rule, e) ↦
        let (row, i, same, q) = b m.db.next_rule_id rule small e in
        let (r, p, (j, k, l), w) = load_all_rules_sound m.db row i in
        let below = d.rules_below r j in
        let id : r.id ≡ row.id = ap (λ (x : LoadAllRulesRow). x.id) w in absurd (omega arith)
  ]

  -- What the firewall holds after AddRule published a rule.
  pub find_published :
      (peer : ℕ) (row : PeerRow) (rule : ModelRule) (m : Manager F) (j : ℕ)
      → IsManager ops node laws m
      → Backed ops node laws m.db m.firewall
      → m.db.next_rule_id < 2 ^ 48
      → j < 2 ^ 48
      → laws.find j (with_rule ops peer row rule m).firewall ≡ (
          if m.db.next_rule_id == j
          then some (stamped node m.db.next_rule_id (rule_of row rule))
          else laws.find j m.firewall)
  find_published peer row rule m j w b small below =
      let (n, d, v, s) = w in
      let step = laws.find_add m.db.next_rule_id j (rule_of row rule) m.firewall v below in
      let free = next_free m w b small in rw n (ground arith)

  -- The rule that AddRule publishes is the one that a restart reads back from its row.
  pub published_same :
      (peer : ℕ) (row : PeerRow) (rule : ModelRule) (db : Database)
      → rule.port_range_start < 2 ^ 16
      → rule_from_row (joined (numbered (row_of peer rule) db) row) ≡ rule_of row rule
  unfolding rule_from_row rule_of row_of
  published_same peer row rule db small =
      let e : rule.port_range_start % 2 ^ 16 ≡ rule.port_range_start = omega arith in rw e

  pub with_rule-Backed :
      (peer : ℕ) (row : PeerRow) (rule : ModelRule) (m : Manager F)
      → get_peer_by_id peer m.db ≡ some row
      → rule.port_range_start < 2 ^ 16
      → IsManager ops node laws m
      → Backed ops node laws m.db m.firewall
      → m.db.next_rule_id < 2 ^ 48
      → Backed ops node laws (with_row peer rule m).db (with_rule ops peer row rule m).firewall
  unfolding get_peer_by_id row_of
  with_rule-Backed peer row rule m g port w b small id r below f =
      let step = find_published peer row rule m id w b small below in
      elim (Bool-cases (m.db.next_rule_id == id)) [
        | inr t ↦ with_row-Backed peer rule m b id r below (ground arith)
        | inl t ↦
            let (i, e) = find_first-In (λ p. p.id == peer) m.db.peers row g in
            let new = numbered (row_of peer rule) m.db in
            (
              joined new row,
              load_all_rules_complete (with_row peer rule m).db new row
                  (In-append_right new m.db.rules (new ∷ []) (inl refl), i, ground arith),
              ground arith,
              rw (published_same peer row rule m.db port) (ground arith),
            )
      ]
