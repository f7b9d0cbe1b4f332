-- ===== src/PeersSync/Rules/Contents.antt =====
-- syncRules of pkg/mesh/peerssync/syncer.go: the contents of the rules of all nodes but the peer.
use liberator_node_go.Prelude.{
  ℕ, suc, ◌%◌, ◌^◌, ◌≡◌, refl, sym, ◌≢◌, ◌↔◌, ◌⊎◌, inl, inr, Bool, true, none, some, List, [], ◌∷◌,
  arith, if◌then◌else◌, Bytes, bytes_beq, bytes_beq_iff, length, nat_eq, bytes_eq, Bool-cases,
  Option-cases, In,
}
use liberator_node_go.Prelude.Map.{get, put}
use liberator_node_go.Firewall
use liberator_node_go.Firewall.Types.{PortRuleIndex, PortRule, RuleDump, Firewall}
use liberator_node_go.Firewall.Registry.{IsNumbered, Stored, Holds}
use liberator_node_go.Firewall.Registry.Add.{HasRoom, Added, add_rule-Added}
use liberator_node_go.Firewall.Registry.Remove.{remove_rule-Removed}
use liberator_node_go.Router
use liberator_node_go.Router.{Router}
use liberator_node_go.PeersSync.Rules.{
  ClientRule, index_of, truncate_port, rule_of, add_remote_rule_object, sync_rule_object,
  merge_rules, sweep_rules, sync_rules,
}
use liberator_node_go.PeersSync.Rules.Owner.{
  HasRoomFor, Foreign, Offered, sync_rule-Takes, merge_rules-Stored, remote_removed,
  sync_rules-Stored,
}

-- The entry of a dump says all that the rule says; its ports lose their upper bits.
pub record Carries (ev : ClientRule) (r : PortRule) : Type 0 where
  pub owner : r.index.node_id ≡ ev.node_id
  pub number : r.index.rule_id ≡ ev.id
  pub address : r.address ≡ ev.addr
  pub target : r.target_address ≡ ev.target_addr
  pub protocol : r.protocol ≡ ev.protocol
  pub first_port : r.port_range_start ≡ ev.port_range_start % 2 ^ 16
  pub last_port :
      ((ev.port_range_end ≡ none) × (r.port_range_end ≡ none))
      ⊎ ((p : ℕ) × (ev.port_range_end ≡ some p) × (r.port_range_end ≡ some (p % 2 ^ 16)))

rule_of-Carries : (ev : ClientRule) → Carries ev (record (rule_of ev) { index = index_of ev })
unfolding rule_of truncate_port
rule_of-Carries ev = record {
  owner = refl;
  number = refl;
  address = refl;
  target = refl;
  protocol = refl;
  first_port = refl;
  last_port = elim (Option-cases ev.port_range_end) [
    | inl e ↦ inl (e, rw e refl)
    | inr (p, e) ↦ inr (p, e, rw e refl)
  ];
}

-- A rule that is taken over from a dump, with its content.
abbrev pub Copied : Bytes → List ClientRule → PortRule → Type 0
Copied local dump r = (ev : ClientRule) × In ev dump × Foreign local (index_of ev) × Carries ev r

-- No rule goes or changes, and a new one is as the entry has it.
abbrev Copies : Bytes → ClientRule → Firewall → Firewall → Type 0
Copies local ev fw fw' =
    (r : PortRule)
    → (Holds r fw → Holds r fw')
      × (Holds r fw' → Holds r fw ⊎ (Foreign local (index_of ev) × Carries ev r))

Copies-Added :
    (local : Bytes) (ev : ClientRule) (fw fw' : Firewall) (ok : Bool)
    → ev.node_id ≢ local
    → Added (index_of ev) (rule_of ev) fw ok fw'
    → Copies local ev fw fw'
Copies-Added local ev fw fw' ok ne (inl (t, named, fresh, s, h)) r = (
  λ q. (h r).1 (inr q),
  λ q. elim ((h r).0 q) [ inl e ↦ inr ((ne, named), rw e (rule_of-Carries ev)) | inr k ↦ inl k ],
)
Copies-Added local ev fw fw' ok ne (inr (t, why, q)) r = (λ h. rw q h, λ h. inl (rw q at h))

sync_rule-Copies :
    (local : Bytes) (ev : ClientRule) (r : Router) (n : ℕ)
    → IsNumbered r.firewall
    → HasRoomFor (suc n) r.firewall
    → Copies local ev r.firewall (sync_rule_object local ev r).firewall
unfolding sync_rule_object add_remote_rule_object Router.exists_rule Router.add_remote_rule
sync_rule-Copies local ev r n v h =
    let fw = r.firewall in
    let index = index_of ev in
    elim (Bool-cases (Firewall.exists_rule index fw)) [
      | inl e ↦ rw (e, sync_rule_object, Router.exists_rule) (λ q. (λ k. k, λ k. inl k))
      | inr e ↦ elim (Bool-cases (bytes_beq ev.node_id local)) [
        | inl own ↦
            rw (e, own, sync_rule_object, Router.exists_rule, add_remote_rule_object)
              (λ q. (λ k. k, λ k. inl k))
        | inr other ↦
            let ne : ev.node_id ≢ local = λ q. ground (arith, bytes_beq_iff ev.node_id local) in
            let room : HasRoom fw = omega arith in
            let (ok, fw') = Firewall.add_rule index (rule_of ev) fw in
            rw
              (
                e, other, sync_rule_object, Router.exists_rule, add_remote_rule_object,
                Router.add_remote_rule,
              )
              (Copies-Added local ev fw fw' ok ne (add_rule-Added index (rule_of ev) fw v room))
      ]
    ]

merge_rules-Holds :
    (local peer : Bytes) (dump : List ClientRule) (alive : List (ℕ × Bool)) (r : Router)
    → IsNumbered r.firewall
    → HasRoomFor (length dump) r.firewall
    → let r' = (merge_rules local peer dump (alive, r)).1 in
      (q : PortRule)
      → (Holds q r.firewall → Holds q r'.firewall)
        × (Holds q r'.firewall → Holds q r.firewall ⊎ Copied local dump q)
unfolding merge_rules
merge_rules-Holds local peer [] alive r v h q = (λ k. k, λ k. inl k)
merge_rules-Holds local peer (ev ∷ evs) alive r v h q =
    let (t, w, room) = sync_rule-Takes local ev r (length evs) v h in
    let (to, from) = sync_rule-Copies local ev r (length evs) v h q in
    let (kept, new) =
      merge_rules-Holds local peer evs
        (if bytes_beq ev.node_id peer then put ev.id true alive else alive)
        (sync_rule_object local ev r) w room q in
    (
      λ k. kept (to k),
      λ k. elim (new k) [
        | inl x ↦ elim (from x) [ inl y ↦ inl y | inr y ↦ inr (ev, inl refl, y.0, y.1) ]
        | inr (x, i, f, y) ↦ inr (x, inr i, f, y)
      ],
    )

remote_removed-Holds :
    (index : PortRuleIndex) (r : Router) (q : PortRule)
    → IsNumbered r.firewall
    → index.node_id ≢ q.index.node_id
    → Holds q (Router.remove_remote_rule index r).1.firewall ↔ Holds q r.firewall
unfolding Router.remove_remote_rule
remote_removed-Holds index r q v ne = elim (remove_rule-Removed index r.firewall v) [
  | inl (ok, was, _, s) ↦ (λ h. ((s q).0 h).0, λ h. (s q).1 (h, λ k. ne k.0))
  | inr (ok, was, same) ↦ (λ h. rw same at h, λ h. rw same h)
]

-- The second loop keeps the rules of other nodes as they are.
sweep_rules-Holds :
    (peer : Bytes) (alive : List (ℕ × Bool)) (ds : List RuleDump) (r : Router) (q : PortRule)
    → IsNumbered r.firewall
    → q.index.node_id ≢ peer
    → Holds q (sweep_rules peer alive ds r).firewall ↔ Holds q r.firewall
unfolding sweep_rules
sweep_rules-Holds peer alive [] r q v ne = (λ h. h, λ h. h)
sweep_rules-Holds peer alive (d ∷ ds) r q v ne = elim (Bool-cases (bytes_beq d.node_id peer)) [
  | inr e ↦ rw (e, sweep_rules) (sweep_rules-Holds peer alive ds r q v ne)
  | inl e ↦ elim (Option-cases (get d.rule_id alive)) [
    | inr (b, g) ↦ rw (e, g, sweep_rules) (sweep_rules-Holds peer alive ds r q v ne)
    | inl g ↦
        let index : PortRuleIndex = record { node_id = peer; rule_id = d.rule_id } in
        let r' = (Router.remove_remote_rule index r).1 in
        let removed = remote_removed-Holds index r q v (λ k. ne (sym k)) in
        let w = (remote_removed index r q.index v (λ k. ne (sym k))).1 in
        let rest = sweep_rules-Holds peer alive ds r' q w ne in
        rw (e, g, sweep_rules) (λ h. removed.0 (rest.0 h), λ h. rest.1 (removed.1 h))
  ]
]

-- In a numbered firewall, while the short ids suffice for the entries of the dump, a dump of
-- `peer` changes the rules of other nodes in one way: it adds those it lists whose owner is neither
-- this node nor empty. A rule of another node, up to 48 bits of its id, is stored afterwards exactly
-- if it was before or is so listed; every rule of another node that was stored still is, with its
-- content; and a new one has the content of an entry, its ports cut to 16 bits.
pub sync_rules-others :
    (local peer : Bytes) (dump : List ClientRule) (r : Router)
    → IsNumbered r.firewall
    → HasRoomFor (length dump) r.firewall
    → let fw' = (sync_rules local peer dump r).firewall in
      ((j : PortRuleIndex)
        → j.node_id ≢ peer
        → Stored j fw' ↔ (Stored j r.firewall ⊎ Offered local dump j))
      × ((q : PortRule)
          → q.index.node_id ≢ peer
          → (Holds q r.firewall → Holds q fw')
            × (Holds q fw' → Holds q r.firewall ⊎ Copied local dump q))
unfolding sync_rules
sync_rules-others local peer dump r v h = (
  λ j ne. sync_rules-Stored local peer dump r j v h ne,
  λ q ne.
      let (alive, r') = merge_rules local peer dump ([], r) in
      let merged = merge_rules-Holds local peer dump [] r v h q in
      let w = (merge_rules-Stored local peer dump [] r v h).1 in
      let swept = sweep_rules-Holds peer alive (Router.dump_rules r') r' q w ne in
      (λ k. swept.1 (merged.0 k), λ k. merged.1 (swept.0 k)),
)
