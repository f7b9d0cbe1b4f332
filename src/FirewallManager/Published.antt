-- ===== src/FirewallManager/Published.antt =====
-- Calls of pkg/services/firewallmanager whose queries are carried out keep the rules of the
-- database in the firewall, and Run puts them there.
use liberator_node_go.Prelude.{
  ℕ, ◌+◌, ◌%◌, ◌^◌, ◌≤◌, ◌<◌, ◌≡◌, sym, ap, subst, ◌∙◌, ◌≢◌, inl, inr, Bool, true, false, not, none,
  some, List, [], ◌∷◌, arith, ◌==◌, Bytes, length, nat_eq, bytes_eq, In, All,
}
use liberator_node_go.Prelude.{In-keep}
use liberator_node_go.Database.{
  PeerRow, RuleRow, LoadAllRulesRow, Database, get_peer_by_id, load_all_rules,
  load_rules_by_peer_id, delete_peer_rule, delete_all_peer_rules,
}
use liberator_node_go.Database.Ids.{
  IsDatabase, Loads, joined, load_all_rules_sound, load_all_rules_complete, find_first-In,
  find_first-none,
}
use liberator_node_go.FirewallManager.{
  Operations, Manager, ModelRule, rule_from_row, row_of, remove_rule, remove_all_peer_rules,
  remove_rows,
}
use liberator_node_go.FirewallManager.Laws.{
  Laws, stamped, Backed, Published, IsManager, find_remove_rows,
}
use liberator_node_go.FirewallManager.Backed.{
  Call, call_add, call_remove, call_remove_all, IsCall, call, calls, with_row, with_rule,
  add_rule_cases, with_row-Loads, find_published, published_same,
}
use liberator_node_go.FirewallManager.Calls.{call_next, call-IsManager, call-Backed}

-- After an insert the peer is read, after the rules of a peer left the firewall they leave the
-- database, and a rule is removed by an id of at most 48 bits.
abbrev pub IsCarriedOut : Call → Type 0
IsCarriedOut (call_add inserted got peer rule) = got ≡ true
IsCarriedOut (call_remove deleted id) = id < 2 ^ 48
IsCarriedOut (call_remove_all loaded deleted peer) = deleted ≡ true

-- Two loaded rows with the same id are the same row.
pub loaded_once :
    (db : Database) (x y : LoadAllRulesRow)
    → IsDatabase db
    → In x (load_all_rules db)
    → In y (load_all_rules db)
    → x.id ≡ y.id
    → x ≡ y
loaded_once db x y d i j e =
    let (r, p, (ri, pi, l), q) = load_all_rules_sound db x i in
    let (s, t, (si, ti, k), w) = load_all_rules_sound db y j in
    let ids : r.id ≡ s.id =
      ap (λ (z : LoadAllRulesRow). z.id) q ∙ e ∙ sym (ap (λ (z : LoadAllRulesRow). z.id) w) in
    let rs : r ≡ s = d.rules_once r s ri si ids in
    let ps : p ≡ t = d.peers_once p t pi ti (sym l ∙ ap (λ (z : RuleRow). z.peer_id) rs ∙ k) in
    sym q ∙ ap (λ z. joined z p) rs ∙ ap (joined s) ps ∙ w

-- A loaded row has an id that was given out.
pub loaded_below :
    (db : Database) (x : LoadAllRulesRow)
    → IsDatabase db
    → In x (load_all_rules db)
    → x.id < db.next_rule_id
loaded_below db x d i =
    let (r, p, (ri, pi, l), q) = load_all_rules_sound db x i in
    let below = d.rules_below r ri in
    let e : r.id ≡ x.id = ap (λ (z : LoadAllRulesRow). z.id) q in omega arith

no_peer :
    (peer : ℕ) (db : Database) (p : PeerRow)
    → get_peer_by_id peer db ≡ none
    → In p db.peers
    → peer ≢ p.id
unfolding get_peer_by_id
no_peer peer db p unknown i same =
    let t = find_first-none (λ q. q.id == peer) db.peers p unknown i in ground arith

module _ {F : Type 0} (ops : Operations F) (node : Bytes) (laws : Laws ops node) where
  -- To show that the rules are published it is enough to look at rules with their peers.
  to_published :
      (db : Database) (fw : F)
      → ((r : RuleRow) (p : PeerRow)
          → Loads db r p
          → laws.find r.id fw ≡ some (stamped node r.id (rule_from_row (joined r p))))
      → Published ops node laws db fw
  to_published db fw h row i =
      let (r, p, l, q) = load_all_rules_sound db row i in
      subst
        (λ (x : LoadAllRulesRow). laws.find x.id fw ≡ some (stamped node x.id (rule_from_row x))) q
        (h r p l)

  with_rule-Published :
      (peer : ℕ) (row : PeerRow) (rule : ModelRule) (m : Manager F)
      → get_peer_by_id peer m.db ≡ some row
      → rule.port_range_start < 2 ^ 16
      → m.db.next_rule_id < 2 ^ 48
      → IsManager ops node laws m
      → Backed ops node laws m.db m.firewall
      → Published ops node laws m.db m.firewall
      → Published ops node laws (with_row peer rule m).db (with_rule ops peer row rule m).firewall
  unfolding get_peer_by_id row_of
  with_rule-Published peer row rule m g port small w b c =
      to_published (with_row peer rule m).db (with_rule ops peer row rule m).firewall (λ r p l.
        let (n, d, v, s) = w in
        elim (with_row-Loads peer rule m r p l) [
          | inl old ↦
              let below = d.rules_below r old.0 in
              let step =
                find_published ops node laws peer row rule m r.id w b small (omega arith) in
              let ne : (m.db.next_rule_id == r.id) ≡ false = ground arith in
              let before = c (joined r p) (load_all_rules_complete m.db r p old) in
              step ∙ rw ne before
          | inr (new, i, e) ↦
              let (j, t) = find_first-In (λ p. p.id == peer) m.db.peers row g in
              let same : row ≡ p = d.peers_once row p j i (ground arith) in
              let step =
                find_published ops node laws peer row rule m m.db.next_rule_id w b small small in
              let eq : (m.db.next_rule_id == m.db.next_rule_id) ≡ true = ground arith in
              let base : laws.find m.db.next_rule_id (with_rule ops peer row rule m).firewall
                  ≡ some (
                      stamped node m.db.next_rule_id (
                        rule_from_row
                          (joined (record (row_of peer rule) { id = m.db.next_rule_id }) row))) =
                rw (published_same ops node laws peer row rule m.db port) (step ∙ rw eq) in
              subst
                (λ (x : RuleRow).
                  laws.find x.id (with_rule ops peer row rule m).firewall
                  ≡ some (stamped node x.id (rule_from_row (joined x p))))
                new
                (subst
                  (λ z.
                    laws.find m.db.next_rule_id (with_rule ops peer row rule m).firewall
                    ≡ some (
                        stamped node m.db.next_rule_id (
                          rule_from_row
                            (joined (record (row_of peer rule) { id = m.db.next_rule_id }) z))))
                  same base)
        ])

  remove_rule-Published :
      (deleted : Bool) (id : ℕ) (m : Manager F)
      → id < 2 ^ 48
      → IsManager ops node laws m
      → Published ops node laws m.db m.firewall
      → let m' = (remove_rule ops deleted id m).1 in Published ops node laws m'.db m'.firewall
  unfolding remove_rule delete_peer_rule
  remove_rule-Published false id m small w c = c
  remove_rule-Published true id m small (n, d, v, s) c =
      to_published (delete_peer_rule id m.db)
        (ops.remove_rule (record { node_id = m.node; rule_id = id }) m.firewall).1
        (λ r p (i, j, e).
          let (i', t) = In-keep (λ y. not (y.id == id)) r m.db.rules i in
          let below = d.rules_below r i' in
          let step = laws.find_remove id r.id m.firewall v (omega arith) in
          let ne : (id % 2 ^ 48 == r.id) ≡ false = ground arith in
          let before = c (joined r p) (load_all_rules_complete m.db r p (i', j, e)) in
          rw n (step ∙ rw ne before))

  pub remove_all-Published :
      (loaded : Bool) (peer : ℕ) (m : Manager F)
      → IsManager ops node laws m
      → Published ops node laws m.db m.firewall
      → let m' = (remove_all_peer_rules ops loaded true peer m).1 in
        Published ops node laws m'.db m'.firewall
  unfolding remove_all_peer_rules delete_all_peer_rules load_rules_by_peer_id
  remove_all-Published false peer m w c = c
  remove_all-Published true peer m (n, d, v, s) c =
      let rows = load_rules_by_peer_id peer m.db in
      to_published (delete_all_peer_rules peer m.db) (remove_rows ops m.node rows m.firewall)
        (λ r p (i, j, e).
          let (i', t) = In-keep (λ y. not (y.peer_id == peer)) r m.db.rules i in
          let below = d.rules_below r i' in
          let before = c (joined r p) (load_all_rules_complete m.db r p (i', j, e)) in
          elim (find_remove_rows ops node laws rows m.firewall r.id v (omega arith)) [
            | inl (same, other) ↦ rw n (same ∙ before)
            | inr (gone, (x, k, q)) ↦
                let (k', u) = In-keep (λ y. y.peer_id == peer) x m.db.rules k in
                let small = d.rules_below x k' in
                let xr : x ≡ r = d.rules_once x r k' i' (omega arith) in absurd (ground arith)
          ])

  call-Published :
      (c : Call) (m : Manager F)
      → IsCall c
      → IsCarriedOut c
      → m.db.next_rule_id < 2 ^ 48
      → IsManager ops node laws m
      → Backed ops node laws m.db m.firewall
      → Published ops node laws m.db m.firewall
      → Published ops node laws (call ops c m).db (call ops c m).firewall
  unfolding call
  call-Published (call_add inserted got peer rule) m port done small w b c =
      elim (add_rule_cases ops inserted got peer rule m) [
        | inl e ↦ rw e c
        | inr (inr (row, g, e)) ↦ rw e (with_rule-Published peer row rule m g port small w b c)
        | inr (inl (e, inl failed)) ↦ absurd (ground arith)
        | inr (inl (e, inr unknown)) ↦ rw e (
            to_published (with_row peer rule m).db m.firewall (λ r p l.
              elim (with_row-Loads peer rule m r p l) [
                | inl old ↦ c (joined r p) (load_all_rules_complete m.db r p old)
                | inr (new, i, same) ↦ absurd (no_peer peer m.db p unknown i same)
              ]))
      ]
  call-Published (call_remove deleted id) m port done small w b c =
      remove_rule-Published deleted id m done w c
  call-Published (call_remove_all loaded deleted peer) m port done small w b c =
      rw done (remove_all-Published loaded peer m w c)

-- Take a firewall that keeps the laws of its interface and a manager of this node whose firewall
-- holds exactly the rules that LoadAllRules gives. After any calls in which the peer of an
-- inserted rule is read, the rules of a peer leave the database once they left the firewall, and
-- a rule is removed by an id of at most 48 bits, it still does: other failures of queries do not
-- matter, and a rule is live exactly if it is in the database. Ports have 16 bits and the rule
-- ids given out stay within 48 bits.
pub calls-Published :
    {F : Type 0} (ops : Operations F) (node : Bytes) (laws : Laws ops node) (cs : List Call)
    (m : Manager F)
    → All IsCall cs
    → All IsCarriedOut cs
    → m.db.next_rule_id + length cs ≤ 2 ^ 48
    → IsManager ops node laws m
    → Backed ops node laws m.db m.firewall
    → Published ops node laws m.db m.firewall
    → Backed ops node laws (calls ops cs m).db (calls ops cs m).firewall
      × Published ops node laws (calls ops cs m).db (calls ops cs m).firewall
unfolding calls
calls-Published ops node laws [] m ports done room w b c = (b, c)
calls-Published ops node laws (x ∷ xs) m ports done room w b c =
    let small : m.db.next_rule_id < 2 ^ 48 = omega arith in
    calls-Published ops node laws xs (call ops x m) ports.1 done.1
      (omega (arith, call_next ops node laws x m)) (call-IsManager ops node laws x m small w)
      (call-Backed ops node laws x m ports.0 small w b)
      (call-Published ops node laws x m ports.0 done.0 small w b c)
