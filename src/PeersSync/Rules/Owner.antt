-- ===== src/PeersSync/Rules/Owner.antt =====
-- syncRules of pkg/mesh/peerssync/syncer.go keeps to the owner: what a dump of a peer does to the
-- rules of all other nodes.
use liberator_node_go.Prelude.{
  ℕ, suc, ◌+◌, ◌^◌, ◌<◌, refl, sym, ◌∙◌, ◌≢◌, ◌↔◌, ◌⊎◌, inl, inr, Bool, true, List, [], ◌∷◌, arith,
  if◌then◌else◌, Bytes, bytes_beq, bytes_beq_iff, length, nat_eq, bytes_eq, Bool-cases,
  Option-cases, In,
}
use liberator_node_go.Prelude.Map.{get, put}
use liberator_node_go.Firewall
use liberator_node_go.Firewall.Types.{PortRuleIndex, PortRule, RuleDump, Firewall}
use liberator_node_go.Firewall.Registry.{IsNumbered, SameRule, Stored, exists_rule_iff}
use liberator_node_go.Firewall.Registry.Add.{HasRoom, Added, add_rule-Added, add_rule-IsNumbered}
use liberator_node_go.Firewall.Registry.Remove.{remove_rule-Removed, remove_rule-IsNumbered}
use liberator_node_go.Router
use liberator_node_go.Router.{Router}
use liberator_node_go.PeersSync.Rules.{
  ClientRule, index_of, rule_of, add_remote_rule_object, sync_rule_object, merge_rules, sweep_rules,
  sync_rules,
}

-- Short ids are left for `n` more nodes.
abbrev pub HasRoomFor : ℕ → Firewall → Type 0
HasRoomFor n fw = fw.next_short_id + n < 2 ^ 16

-- The rule may be taken over from a dump: it has an owner, and that is another node.
abbrev pub Foreign : Bytes → PortRuleIndex → Type 0
Foreign local index = (index.node_id ≢ local) × (index.node_id ≢ [])

add_rule-next :
    (index : PortRuleIndex) (rule : PortRule) (fw : Firewall) (n : ℕ)
    → HasRoomFor (suc n) fw
    → HasRoomFor n (Firewall.add_rule index rule fw).1
unfolding Firewall.add_rule Firewall.get_or_create_short_id Firewall.insert_rule Firewall.link_rule
add_rule-next index rule fw n h = ground arith

-- What the entry of a dump makes of the stored rules.
abbrev pub Takes : Bytes → PortRuleIndex → Firewall → Firewall → Type 0
Takes local index fw fw' =
    (j : PortRuleIndex) → Stored j fw' ↔ (Stored j fw ⊎ (Foreign local index × SameRule index j))

Stored-SameRule : (i j : PortRuleIndex) (fw : Firewall) → Stored i fw → SameRule i j → Stored j fw
Stored-SameRule i j fw (key, r, g, same) q = (key, r, g, (same.0 ∙ q.0, same.1 ∙ q.1))

Takes-Added :
    (local : Bytes) (index : PortRuleIndex) (rule : PortRule) (fw fw' : Firewall) (ok : Bool)
    → index.node_id ≢ local
    → Added index rule fw ok fw'
    → Takes local index fw fw'
Takes-Added local index rule fw fw' ok ne (inl (t, named, fresh, s, h)) j = (
  λ h. elim ((s j).0 h) [ inl q ↦ inr ((ne, named), q) | inr q ↦ inl q ],
  λ h. elim h [ inl q ↦ (s j).1 (inr q) | inr q ↦ (s j).1 (inl q.1) ],
)
Takes-Added local index rule fw fw' ok ne (inr (t, why, q)) j = (
  λ h. inl (rw q at h),
  λ h. elim h [
    | inl s ↦ rw q s
    | inr (f, same) ↦ elim why [
      | inl e ↦ absurd (f.1 e)
      | inr s ↦ rw q (Stored-SameRule index j fw s same)
    ]
  ],
)

pub sync_rule-Takes :
    (local : Bytes) (ev : ClientRule) (r : Router) (n : ℕ)
    → IsNumbered r.firewall
    → HasRoomFor (suc n) r.firewall
    → Takes local (index_of ev) r.firewall (sync_rule_object local ev r).firewall
      × IsNumbered (sync_rule_object local ev r).firewall
      × HasRoomFor n (sync_rule_object local ev r).firewall
unfolding sync_rule_object add_remote_rule_object Router.exists_rule Router.add_remote_rule
sync_rule-Takes local ev r n v h =
    let fw = r.firewall in
    let index = index_of ev in
    let less : HasRoomFor n fw = omega arith in
    elim (Bool-cases (Firewall.exists_rule index fw)) [
      | inl e ↦
          rw (e, sync_rule_object, Router.exists_rule)
            (
              λ j. (
                inl,
                λ q. elim q [
                  | inl s ↦ s
                  | inr s ↦ Stored-SameRule index j fw ((exists_rule_iff index fw v).0 e) s.1
                ],
              ),
              v,
              less,
            )
      | inr e ↦ elim (Bool-cases (bytes_beq ev.node_id local)) [
        | inl own ↦
            rw (e, own, sync_rule_object, Router.exists_rule, add_remote_rule_object)
              (
                λ j. (
                  inl,
                  λ q. elim q [
                    | inl s ↦ s
                    | inr s ↦ absurd (s.0.0 ((bytes_beq_iff ev.node_id local).0 own))
                  ],
                ),
                v,
                less,
              )
        | inr other ↦
            let ne : ev.node_id ≢ local = λ q. ground (arith, bytes_beq_iff ev.node_id local) in
            let room : HasRoom fw = omega arith in
            let (ok, fw') = Firewall.add_rule index (rule_of ev) fw in
            rw
              (
                e, other, sync_rule_object, Router.exists_rule, add_remote_rule_object,
                Router.add_remote_rule,
              )
              (
                Takes-Added local index (rule_of ev) fw fw' ok ne
                    (add_rule-Added index (rule_of ev) fw v room),
                add_rule-IsNumbered index (rule_of ev) fw v room,
                add_rule-next index (rule_of ev) fw n h,
              )
      ]
    ]

-- A dump has the rule, of a node that rules are taken over from.
abbrev pub Offered : Bytes → List ClientRule → PortRuleIndex → Type 0
Offered local dump j =
    (ev : ClientRule) × In ev dump × Foreign local (index_of ev) × SameRule (index_of ev) j

Offered-cons :
    (local : Bytes) (ev : ClientRule) (evs : List ClientRule) (j : PortRuleIndex)
    → Offered local (ev ∷ evs) j
    → (Foreign local (index_of ev) × SameRule (index_of ev) j) ⊎ Offered local evs j
Offered-cons local ev evs j (x, inl e, f, q) = inl (rw e (f, q))
Offered-cons local ev evs j (x, inr e, f, q) = inr (x, e, f, q)

pub merge_rules-Stored :
    (local peer : Bytes) (dump : List ClientRule) (alive : List (ℕ × Bool)) (r : Router)
    → IsNumbered r.firewall
    → HasRoomFor (length dump) r.firewall
    → let r' = (merge_rules local peer dump (alive, r)).1 in
      ((j : PortRuleIndex) → Stored j r'.firewall ↔ (Stored j r.firewall ⊎ Offered local dump j))
      × IsNumbered r'.firewall
unfolding merge_rules
merge_rules-Stored local peer [] alive r v h =
    (λ j. (inl, λ q. elim q [ inl s ↦ s | inr (ev, i, f, q) ↦ elim i [ ] ]), v)
merge_rules-Stored local peer (ev ∷ evs) alive r v h =
    let (t, w, room) = sync_rule-Takes local ev r (length evs) v h in
    let (s, u) =
      merge_rules-Stored local peer evs
        (if bytes_beq ev.node_id peer then put ev.id true alive else alive)
        (sync_rule_object local ev r) w room in
    (
      λ j. (
        λ q. elim ((s j).0 q) [
          | inl x ↦ elim ((t j).0 x) [ inl y ↦ inl y | inr y ↦ inr (ev, inl refl, y.0, y.1) ]
          | inr (x, i, f, y) ↦ inr (x, inr i, f, y)
        ],
        λ q. (s j).1 (elim q [
          | inl x ↦ inl ((t j).1 (inl x))
          | inr x ↦ elim (Offered-cons local ev evs j x) [
            | inl y ↦ inl ((t j).1 (inr y))
            | inr y ↦ inr y
          ]
        ]),
      ),
      u,
    )

-- A rule of another node stays, and so does the numbering.
pub remote_removed :
    (index : PortRuleIndex) (r : Router) (j : PortRuleIndex)
    → IsNumbered r.firewall
    → index.node_id ≢ j.node_id
    → (Stored j (Router.remove_remote_rule index r).1.firewall ↔ Stored j r.firewall)
      × IsNumbered (Router.remove_remote_rule index r).1.firewall
unfolding Router.remove_remote_rule
remote_removed index r j v ne = (
  elim (remove_rule-Removed index r.firewall v) [
    | inl (ok, was, s, _) ↦ (λ h. ((s j).0 h).0, λ h. (s j).1 (h, λ q. ne q.0))
    | inr (ok, was, same) ↦ (λ h. rw same at h, λ h. rw same h)
  ],
  remove_rule-IsNumbered index r.firewall v,
)

-- A rule that no call removes, since only rules of the peer go.
sweep_rules-Stored :
    (peer : Bytes) (alive : List (ℕ × Bool)) (ds : List RuleDump) (r : Router) (j : PortRuleIndex)
    → IsNumbered r.firewall
    → j.node_id ≢ peer
    → Stored j (sweep_rules peer alive ds r).firewall ↔ Stored j r.firewall
unfolding sweep_rules
sweep_rules-Stored peer alive [] r j v ne = (λ h. h, λ h. h)
sweep_rules-Stored peer alive (d ∷ ds) r j v ne = elim (Bool-cases (bytes_beq d.node_id peer)) [
  | inr e ↦ rw (e, sweep_rules) (sweep_rules-Stored peer alive ds r j v ne)
  | inl e ↦ elim (Option-cases (get d.rule_id alive)) [
    | inr (b, g) ↦ rw (e, g, sweep_rules) (sweep_rules-Stored peer alive ds r j v ne)
    | inl g ↦
        let index : PortRuleIndex = record { node_id = peer; rule_id = d.rule_id } in
        let r' = (Router.remove_remote_rule index r).1 in
        let removed = remote_removed index r j v (λ q. ne (sym q)) in
        let rest = sweep_rules-Stored peer alive ds r' j removed.1 ne in
        rw (e, g, sweep_rules) (λ h. removed.0.0 (rest.0 h), λ h. rest.1 (removed.0.1 h))
  ]
]

-- The rules of other nodes than `peer` that are stored after its dump.
pub sync_rules-Stored :
    (local peer : Bytes) (dump : List ClientRule) (r : Router) (j : PortRuleIndex)
    → IsNumbered r.firewall
    → HasRoomFor (length dump) r.firewall
    → j.node_id ≢ peer
    → Stored j (sync_rules local peer dump r).firewall
      ↔ (Stored j r.firewall ⊎ Offered local dump j)
unfolding sync_rules
sync_rules-Stored local peer dump r j v h ne =
    let (alive, r') = merge_rules local peer dump ([], r) in
    let (s, w) = merge_rules-Stored local peer dump [] r v h in
    let swept = sweep_rules-Stored peer alive (Router.dump_rules r') r' j w ne in
    (λ q. (s j).0 (swept.0 q), λ q. swept.1 ((s j).1 q))
