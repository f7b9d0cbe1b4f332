-- ===== src/Firewall/Index/Unlink.antt =====
-- RemoveRule of pkg/firewall/firewall.go, on the two maps of rules.
use liberator_node_go.Prelude.{
  ℕ, ◌≡◌, ◌∙◌, ◌≢◌, some, List, arith, if◌then◌else◌, ◌==◌, nat_eq, bytes_eq, In,
}
use liberator_node_go.Prelude.{Distinct}
use liberator_node_go.Prelude.Map.{get, Keys, put-Keys, erase-Keys, get-erase, get-erase_ne}
use liberator_node_go.Firewall.Types.{PortRule, Firewall}
use liberator_node_go.Firewall.{ids_at, cut_id, unlink_rule}
use liberator_node_go.Firewall.Index.{
  Holds, IsIndexed, ids_at-put, ids_at-erase, In-cut_id, cut_id-In, cut_id-Distinct,
}

-- A rule cut out of both maps leaves the others where they were.
module _ (fw : Firewall) (key : ℕ) (rule : PortRule) (v : IsIndexed fw)
    (stored : get key fw.rules_by_id ≡ some rule) where
  -- What is left under the rule's address.
  abbrev rest_ids : List ℕ
  rest_ids = cut_id key (ids_at rule.address fw.rules_by_addr)

  ids_at-unlink :
      (address : ℕ)
      → ids_at address (unlink_rule key rule fw).rules_by_addr
        ≡ (if rule.address == address then rest_ids else ids_at address fw.rules_by_addr)
  unfolding unlink_rule
  ids_at-unlink address = ground (
    arith,
    ids_at-put rule.address address rest_ids fw.rules_by_addr,
    ids_at-erase rule.address address fw.rules_by_addr,
  )

  unlink_kept :
      (address id : ℕ)
      → In id (ids_at address (unlink_rule key rule fw).rules_by_addr)
      → In id (ids_at address fw.rules_by_addr) × (key ≢ id)
  unlink_kept address id m =
      let m' = rw (ids_at-unlink address) at m in
      ground (
        arith,
        m',
        In-cut_id key id (ids_at rule.address fw.rules_by_addr) (v.distinct rule.address),
        v.listed address id,
      )

  unlink-listed :
      (address id : ℕ)
      → In id (ids_at address (unlink_rule key rule fw).rules_by_addr)
      → Holds (unlink_rule key rule fw) id address
  unfolding unlink_rule
  unlink-listed address id m =
      let (old, ne) = unlink_kept address id m in
      let (r, g, e) = v.listed address id old in (r, get-erase_ne key id fw.rules_by_id ne ∙ g, e)

  unlink-found :
      (address id : ℕ)
      → Holds (unlink_rule key rule fw) id address
      → In id (ids_at address (unlink_rule key rule fw).rules_by_addr)
  unfolding unlink_rule
  unlink-found address id (r, g, e) = rw (ids_at-unlink address) (
      ground (
        arith,
        get-erase key id fw.rules_by_id,
        λ (q : get id fw.rules_by_id ≡ some r). v.found address id (r, q, e),
        cut_id-In key id (ids_at rule.address fw.rules_by_addr),
      ))

  unlink-Distinct :
      (address : ℕ) → Distinct (ids_at address (unlink_rule key rule fw).rules_by_addr)
  unlink-Distinct address = rw (ids_at-unlink address) (
      ground (
        arith,
        cut_id-Distinct key (ids_at rule.address fw.rules_by_addr) (v.distinct rule.address),
        v.distinct address,
      ))

  unlink-addrs_once : Keys (unlink_rule key rule fw).rules_by_addr
  unfolding unlink_rule
  unlink-addrs_once = ground (
    arith,
    erase-Keys rule.address fw.rules_by_addr v.addrs_once,
    put-Keys rule.address rest_ids fw.rules_by_addr v.addrs_once,
  )

  pub unlink_rule-IsIndexed : IsIndexed (unlink_rule key rule fw)
  unlink_rule-IsIndexed = record {
    ids_once = unfold unlink_rule in erase-Keys key fw.rules_by_id v.ids_once;
    addrs_once = unlink-addrs_once;
    listed = unlink-listed;
    found = unlink-found;
    distinct = unlink-Distinct;
  }
