-- ===== src/Firewall/Rules.antt =====
-- What rulesAllow of pkg/firewall/firewall.go decides: some stored rule permits the packet.
use liberator_node_go.Prelude.{
  ℕ, ◌≤◌, ◌≡◌, refl, sym, ◌∙◌, ◌↔◌, ◌⊎◌, inl, inr, Bool, true, false, ◌&&◌, ◌||◌, Option, none,
  some, List, [], ◌∷◌, arith, if◌then◌else◌, codes, bytes_beq, bytes_beq_iff, nat_eq, bytes_eq,
  Bool-cases, Option-cases, In,
}
use liberator_node_go.Prelude.Map.{get}
use liberator_node_go.Dgmessage.{HoleInfo}
use liberator_node_go.Firewall.Types.{PortRule, Firewall}
use liberator_node_go.Firewall.{
  ids_at, rule_at, target_allows, port_allows, icmp_loop, port_loop, rules_allow,
}
use liberator_node_go.Firewall.Index.{IsIndexed}

-- The rule is open to everybody, or to this sender.
abbrev pub OpenTo : PortRule → ℕ → Type 0
OpenTo r src = (r.target_address ≡ none) ⊎ (r.target_address ≡ some src)

-- A single port, or a closed range.
abbrev pub OnPort : PortRule → ℕ → Type 0
OnPort r port =
    ((r.port_range_end ≡ none) × (r.port_range_start ≡ port))
    ⊎ ((last : ℕ) × (r.port_range_end ≡ some last) × (r.port_range_start ≤ port) × (port ≤ last))

-- What the rule says of the protocol and the port; ICMP is let through by any rule.
abbrev pub Matches : PortRule → HoleInfo → Type 0
Matches r i =
    OpenTo r i.src_ip
    × ((i.protocol ≡ codes "icmp")
        ⊎ (((r.protocol ≡ codes "both") ⊎ (r.protocol ≡ i.protocol)) × OnPort r i.dst_port))

-- A stored rule for the packet's destination matches the packet.
abbrev pub Permitted : Firewall → HoleInfo → Type 0
Permitted fw i =
    (id : ℕ) × (r : PortRule) × (get id fw.rules_by_id ≡ some r)
    × (r.address ≡ i.dst_ip)
    × Matches r i

target_allows_iff :
    (r : PortRule) (src : ℕ) → (target_allows r.target_address src ≡ true) ↔ OpenTo r src
unfolding target_allows
target_allows_iff r src = (λ h. ground arith, λ h. ground arith)

port_allows_iff : (r : PortRule) (port : ℕ) → (port_allows r port ≡ true) ↔ OnPort r port
unfolding port_allows
port_allows_iff r port = (to r.port_range_end refl, λ h. ground arith)
  where
    to : (o : Option ℕ) → r.port_range_end ≡ o → port_allows r port ≡ true → OnPort r port
    to none e h = inl (e, ground arith)
    to (some last) e h = inr (last, e, ground arith, ground arith)

-- One round of either loop, as a test on the rule.
icmp_test : PortRule → HoleInfo → Bool
icmp_test r i = target_allows r.target_address i.src_ip

port_test : PortRule → HoleInfo → Bool
port_test r i =
    target_allows r.target_address i.src_ip
    && ((bytes_beq r.protocol (codes "both") || bytes_beq r.protocol i.protocol)
        && port_allows r i.dst_port)

any_id : (ℕ → Bool) → List ℕ → Bool
any_id p [] = false
any_id p (id ∷ ids) = p id || any_id p ids

any_id_sound :
    (p : ℕ → Bool) (ids : List ℕ) → any_id p ids ≡ true → (id : ℕ) × In id ids × (p id ≡ true)
unfolding any_id
any_id_sound p [] h = absurd (cc)
any_id_sound p (x ∷ ids) h = elim (Bool-cases (p x)) [
  | inl e ↦ (x, inl refl, e)
  | inr e ↦ let (id, m, q) = any_id_sound p ids (ground arith) in (id, inr m, q)
]

any_id_complete :
    (p : ℕ → Bool) (ids : List ℕ) (id : ℕ) → In id ids → p id ≡ true → any_id p ids ≡ true
unfolding any_id
any_id_complete p [] id m e = elim m [ ]
any_id_complete p (x ∷ ids) id (inl q) e = ground arith
any_id_complete p (x ∷ ids) id (inr m) e = ground (arith, any_id_complete p ids id m e)

rule_test : PortRule → HoleInfo → Bool
rule_test r i = if bytes_beq i.protocol (codes "icmp") then icmp_test r i else port_test r i

rule_test_sound : (r : PortRule) (i : HoleInfo) → rule_test r i ≡ true → Matches r i
unfolding rule_test icmp_test port_test
rule_test_sound r i h = ground (
  arith,
  bytes_beq_iff i.protocol (codes "icmp"),
  bytes_beq_iff r.protocol (codes "both"),
  bytes_beq_iff r.protocol i.protocol,
  (target_allows_iff r i.src_ip).0,
  (port_allows_iff r i.dst_port).0,
)

rule_test_complete : (r : PortRule) (i : HoleInfo) → Matches r i → rule_test r i ≡ true
unfolding rule_test icmp_test port_test
rule_test_complete r i h =
    let t = (target_allows_iff r i.src_ip).1 h.0 in
    ground (
      arith,
      t,
      bytes_beq_iff i.protocol (codes "icmp"),
      bytes_beq_iff r.protocol (codes "both"),
      bytes_beq_iff r.protocol i.protocol,
      λ (q : OnPort r i.dst_port). (port_allows_iff r i.dst_port).1 q,
    )

icmp_loop-any :
    (i : HoleInfo) (fw : Firewall) (ids : List ℕ)
    → bytes_beq i.protocol (codes "icmp") ≡ true
    → icmp_loop i fw ids ≡ any_id (λ id. rule_test (rule_at id fw) i) ids
unfolding icmp_loop any_id icmp_test rule_test
icmp_loop-any i fw [] h = refl
icmp_loop-any i fw (x ∷ ids) h = ground (arith, icmp_loop-any i fw ids h)

port_loop-any :
    (i : HoleInfo) (fw : Firewall) (ids : List ℕ)
    → bytes_beq i.protocol (codes "icmp") ≡ false
    → port_loop i fw ids ≡ any_id (λ id. rule_test (rule_at id fw) i) ids
unfolding port_loop any_id port_test rule_test
port_loop-any i fw [] h = refl
port_loop-any i fw (x ∷ ids) h = ground (arith, port_loop-any i fw ids h)

rules_allow-any :
    (i : HoleInfo) (fw : Firewall)
    → rules_allow i fw
      ≡ any_id (λ id. rule_test (rule_at id fw) i) (ids_at i.dst_ip fw.rules_by_addr)
unfolding rules_allow ids_at any_id
rules_allow-any i fw = elim (Option-cases (get i.dst_ip fw.rules_by_addr)) [
  | inl e ↦ rw (e, rules_allow, ids_at)
  | inr (ids, e) ↦ elim (Bool-cases (bytes_beq i.protocol (codes "icmp"))) [
    | inl q ↦ rw (e, rules_allow, ids_at, q) (icmp_loop-any i fw ids q)
    | inr q ↦ rw (e, rules_allow, ids_at, q) (port_loop-any i fw ids q)
  ]
]

rule_at_stored :
    (id : ℕ) (r : PortRule) (fw : Firewall) → get id fw.rules_by_id ≡ some r → rule_at id fw ≡ r
unfolding rule_at
rule_at_stored id r fw e = rw (e, rule_at)

-- In a firewall whose two maps agree, the rules let a packet through exactly when a stored rule
-- for its destination address matches its sender, and, unless it is ICMP, its protocol and port.
pub rules_allow_iff :
    (i : HoleInfo) (fw : Firewall) → IsIndexed fw → (rules_allow i fw ≡ true) ↔ Permitted fw i
rules_allow_iff i fw v = (to, from)
  where
    to : rules_allow i fw ≡ true → Permitted fw i
    to h =
        let (id, m, t) = any_id_sound _ _ (sym (rules_allow-any i fw) ∙ h) in
        let (r, g, a) = v.listed i.dst_ip id m in
        (id, r, g, a, rule_test_sound r i (rw (rule_at_stored id r fw g) at t))

    from : Permitted fw i → rules_allow i fw ≡ true
    from (id, r, g, a, t) =
        rules_allow-any i fw
        ∙ any_id_complete _ _ id (v.found i.dst_ip id (r, g, a))
            (rw (rule_at_stored id r fw g) (rule_test_complete r i t))
