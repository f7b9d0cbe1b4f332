-- ===== src/FirewallManager/Calls.antt =====
-- Any sequence of calls of pkg/services/firewallmanager, with any failures of the database.
use liberator_node_go.Prelude.{
  ℕ, ◌+◌, ◌^◌, ◌≤◌, ◌<◌, ◌≡◌, ap, subst, ◌∙◌, inl, inr, Bool, true, false, not, some, List, [], ◌∷◌,
  arith, ◌==◌, Bytes, length, nat_eq, bytes_eq, Bool-cases, In, All,
}
use liberator_node_go.Prelude.{keep-In}
use liberator_node_go.Firewall.Types.{PortRule}
use liberator_node_go.Database.{
  PeerRow, RuleRow, LoadAllRulesRow, Database, load_all_rules, load_rules_by_peer_id,
  delete_peer_rule, delete_all_peer_rules,
}
use liberator_node_go.Database.Ids.{
  IsDatabase, Loads, load_all_rules_sound, load_all_rules_complete,
}
use liberator_node_go.Database.Changes.{
  inserted-IsDatabase, delete_peer_rule-IsDatabase, delete_all_peer_rules-IsDatabase,
}
use liberator_node_go.FirewallManager.{
  Operations, Manager, ModelRule, row_of, remove_rule, remove_all_peer_rules, remove_rows,
}
use liberator_node_go.FirewallManager.Laws.{
  Laws, Backed, IsManager, remove_rows-IsValid, find_remove_rows,
}
use liberator_node_go.FirewallManager.Backed.{
  Call, call_add, call_remove, call_remove_all, IsCall, call, calls, with_row, add_rule_cases,
  with_row-Backed, with_rule-Backed,
}

module _ {F : Type 0} (ops : Operations F) (node : Bytes) (laws : Laws ops node) where
  -- A firewall that lost rules is backed by a database without rows of those rules.
  pub shrink-Backed :
      (db db' : Database) (fw fw' : F)
      → ((id : ℕ) (rule : PortRule)
          → id < 2 ^ 48
          → laws.find id fw' ≡ some rule
          → (laws.find id fw ≡ some rule)
            × ((r : RuleRow) (p : PeerRow) → r.id ≡ id → Loads db r p → Loads db' r p))
      → Backed ops node laws db fw
      → Backed ops node laws db' fw'
  shrink-Backed db db' fw fw' less b id rule small f =
      let (f', kept) = less id rule small f in
      let (row, i, e, s) = b id rule small f' in
      let (r, p, l, q) = load_all_rules_sound db row i in
      let same : r.id ≡ id = ap (λ (x : LoadAllRulesRow). x.id) q ∙ e in
      (
        row,
        subst (λ x. In x (load_all_rules db')) q
            (load_all_rules_complete db' r p (kept r p same l)),
        e,
        s,
      )

  pub remove_rule-Backed :
      (deleted : Bool) (id : ℕ) (m : Manager F)
      → IsManager ops node laws m
      → Backed ops node laws m.db m.firewall
      → let m' = (remove_rule ops deleted id m).1 in Backed ops node laws m'.db m'.firewall
  unfolding remove_rule delete_peer_rule
  remove_rule-Backed false id m w b = b
  remove_rule-Backed true id m (n, d, v, s) b =
      shrink-Backed m.db (delete_peer_rule id m.db) m.firewall
        (ops.remove_rule (record { node_id = m.node; rule_id = id }) m.firewall).1
        (λ j r small f.
          let step = laws.find_remove id j m.firewall v small in
          let f' : laws.find j
                (ops.remove_rule (record { node_id = node; rule_id = id }) m.firewall).1
              ≡ some r =
            subst
              (λ k.
                laws.find j (ops.remove_rule (record { node_id = k; rule_id = id }) m.firewall).1
                ≡ some r)
              n f in
          (
            ground arith,
            λ x p e (i, k, l).
                (keep-In (λ y. not (y.id == id)) x m.db.rules i (ground arith), k, l),
          ))
        b

  pub remove_all-Backed :
      (loaded deleted : Bool) (peer : ℕ) (m : Manager F)
      → IsManager ops node laws m
      → Backed ops node laws m.db m.firewall
      → let m' = (remove_all_peer_rules ops loaded deleted peer m).1 in
        Backed ops node laws m'.db m'.firewall
  unfolding remove_all_peer_rules delete_all_peer_rules load_rules_by_peer_id
  remove_all-Backed false deleted peer m w b = b
  remove_all-Backed true deleted peer m (n, d, v, s) b =
      let rows = load_rules_by_peer_id peer m.db in
      let fw = remove_rows ops m.node rows m.firewall in
      let less : (j : ℕ) (r : PortRule)
          → j < 2 ^ 48
          → laws.find j fw ≡ some r
          → (laws.find j m.firewall ≡ some r)
            × ((x : RuleRow) (p : PeerRow)
                → x.id ≡ j
                → Loads m.db x p
                → Loads (delete_all_peer_rules peer m.db) x p) =
        λ j r small f.
          let f' = subst (λ k. laws.find j (remove_rows ops k rows m.firewall) ≡ some r) n f in
          elim (find_remove_rows ops node laws rows m.firewall j v small) [
            | inr (e, rest) ↦ absurd (ground arith)
            | inl (e, other) ↦ (
              ground arith,
              λ x p q (i, k, l). elim (Bool-cases (x.peer_id == peer)) [
                | inl t ↦
                    absurd
                      (ground (arith, other x (keep-In (λ y. y.peer_id == peer) x m.db.rules i t)))
                | inr t ↦
                    (keep-In (λ y. not (y.peer_id == peer)) x m.db.rules i (ground arith), k, l)
              ],
            )
          ] in
      elim (Bool-cases deleted) [
        | inl t ↦ rw t (shrink-Backed m.db (delete_all_peer_rules peer m.db) m.firewall fw less b)
        | inr t ↦ rw t (
            shrink-Backed m.db m.db m.firewall fw
              (λ j r small f. ((less j r small f).0, λ x p e l. l)) b)
      ]

  -- One call gives out one rule id at most.
  pub call_next :
      (c : Call) (m : Manager F) → (call ops c m).db.next_rule_id ≤ m.db.next_rule_id + 1
  unfolding call remove_rule remove_all_peer_rules delete_peer_rule delete_all_peer_rules
  call_next (call_add inserted got peer rule) m =
      elim (add_rule_cases ops inserted got peer rule m) [
        | inl e ↦ rw e (omega arith)
        | inr (inl (e, why)) ↦ rw e (omega arith)
        | inr (inr (row, g, e)) ↦ rw e (omega arith)
      ]
  call_next (call_remove false id) m = omega arith
  call_next (call_remove true id) m = omega arith
  call_next (call_remove_all false deleted peer) m = omega arith
  call_next (call_remove_all true true peer) m = omega arith
  call_next (call_remove_all true false peer) m = omega arith

  with_row-IsDatabase :
      (peer : ℕ) (rule : ModelRule) (m : Manager F)
      → IsDatabase m.db
      → IsDatabase (with_row peer rule m).db
  with_row-IsDatabase peer rule m d = inserted-IsDatabase (row_of peer rule) m.db d

  pub call-IsManager :
      (c : Call) (m : Manager F)
      → m.db.next_rule_id < 2 ^ 48
      → IsManager ops node laws m
      → IsManager ops node laws (call ops c m)
  unfolding call remove_rule remove_all_peer_rules
  call-IsManager (call_add inserted got peer rule) m small (n, d, v, s) =
      elim (add_rule_cases ops inserted got peer rule m) [
        | inl e ↦ rw e (n, d, v, s)
        | inr (inl (e, why)) ↦ rw e (n, with_row-IsDatabase peer rule m d, v, omega arith)
        | inr (inr (row, g, e)) ↦ rw e (
          n,
          with_row-IsDatabase peer rule m d,
          rw n (laws.add_valid _ _ m.firewall v),
          omega arith,
        )
      ]
  call-IsManager (call_remove false id) m small w = w
  call-IsManager (call_remove true id) m small (n, d, v, s) = (
    n,
    delete_peer_rule-IsDatabase id m.db d,
    rw n (laws.remove_valid id m.firewall v),
    unfold delete_peer_rule in s,
  )
  call-IsManager (call_remove_all false deleted peer) m small w = w
  call-IsManager (call_remove_all true true peer) m small (n, d, v, s) = (
    n,
    delete_all_peer_rules-IsDatabase peer m.db d,
    rw n (remove_rows-IsValid ops node laws _ m.firewall v),
    unfold delete_all_peer_rules in s,
  )
  call-IsManager (call_remove_all true false peer) m small (n, d, v, s) =
      (n, d, rw n (remove_rows-IsValid ops node laws _ m.firewall v), s)

  pub call-Backed :
      (c : Call) (m : Manager F)
      → IsCall c
      → m.db.next_rule_id < 2 ^ 48
      → IsManager ops node laws m
      → Backed ops node laws m.db m.firewall
      → Backed ops node laws (call ops c m).db (call ops c m).firewall
  unfolding call
  call-Backed (call_add inserted got peer rule) m port small w b =
      elim (add_rule_cases ops inserted got peer rule m) [
        | inl e ↦ rw e b
        | inr (inl (e, why)) ↦ rw e (with_row-Backed ops node laws peer rule m b)
        | inr (inr (row, g, e)) ↦
            rw e (with_rule-Backed ops node laws peer row rule m g port w b small)
      ]
  call-Backed (call_remove deleted id) m port small w b = remove_rule-Backed deleted id m w b
  call-Backed (call_remove_all loaded deleted peer) m port small w b =
      remove_all-Backed loaded deleted peer m w b

-- Take a firewall that keeps the laws of its interface, and a manager of this node that starts
-- with a firewall whose rules of the node are all in the database. After any calls of AddRule,
-- RemoveRule and RemoveAllPeerRules, with ports of 16 bits and with any failures of their
-- queries, each rule of the node in the firewall is still one that LoadAllRules gives, with the
-- same contents. The rule ids given out stay within 48 bits.
pub calls-Backed :
    {F : Type 0} (ops : Operations F) (node : Bytes) (laws : Laws ops node) (cs : List Call)
    (m : Manager F)
    → All IsCall cs
    → m.db.next_rule_id + length cs ≤ 2 ^ 48
    → IsManager ops node laws m
    → Backed ops node laws m.db m.firewall
    → IsManager ops node laws (calls ops cs m)
      × Backed ops node laws (calls ops cs m).db (calls ops cs m).firewall
unfolding calls
calls-Backed ops node laws [] m ports room w b = (w, b)
calls-Backed ops node laws (c ∷ cs) m ports room w b =
    let small : m.db.next_rule_id < 2 ^ 48 = omega arith in
    calls-Backed ops node laws cs (call ops c m) ports.1
      (omega (arith, call_next ops node laws c m)) (call-IsManager ops node laws c m small w)
      (call-Backed ops node laws c m ports.0 small w b)
