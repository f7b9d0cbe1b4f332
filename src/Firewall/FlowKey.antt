-- ===== src/Firewall/FlowKey.antt =====
-- The key of a flow names the flow: makeFlowKey of pkg/firewall/firewall.go.
use liberator_node_go.Prelude.{
  ℕ, zero, suc, ◌+◌, ◌-◌, ◌*◌, ◌/◌, ◌%◌, ◌≤◌, ◌≡◌, refl, sym, ap, ◌∙◌, ◌≢◌, ◌↔◌, ◌⊎◌, inl, inr,
  ◌&&◌, [], ◌∷◌, ◌++◌, arith, if◌then◌else◌, leb, Bytes, codes, bytes_beq, bytes_beq_iff, nat_eq,
  bytes_eq, Bool-cases,
}
use liberator_node_go.Dgmessage.{HoleInfo}
use liberator_node_go.Firewall.Keys.{icmp_key, port_key, make_flow_key, flow_key}
use liberator_node_go.Firewall.Keys.Decimal.{decimal, emit}

-- Reads a decimal number from the front of a text.
read : ℕ → Bytes → ℕ × Bytes
read n [] = (n, [])
read n (c ∷ s) =
    let rest = read (n * 10 + (c - b'0')) s in if leb b'0' c && leb c b'9' then rest else (n, c ∷ s)

emit-append : (f n : ℕ) (out t : Bytes) → emit f n out ++ t ≡ emit f n (out ++ t)
unfolding emit
emit-append zero n out t = refl
emit-append (suc f) n out t = ground (arith, emit-append f (n / 10) ((b'0' + n % 10) ∷ out) t)

read_digit : (n : ℕ) (s : Bytes) → read (n / 10) ((b'0' + n % 10) ∷ s) ≡ read n s
unfolding read
read_digit n s = ground arith

read-emit : (f n : ℕ) (out : Bytes) → n ≤ f → read 0 (emit f n out) ≡ read n out
unfolding emit
read-emit zero zero out h = read_digit 0 out
read-emit zero (suc n) out h = absurd (omega arith)
read-emit (suc f) n out h =
    ground (arith, read_digit n out, read-emit f (n / 10) ((b'0' + n % 10) ∷ out))

read-decimal : (n : ℕ) (s : Bytes) → read 0 (decimal n ++ b'|' ∷ s) ≡ (n, b'|' ∷ s)
unfolding decimal read
read-decimal n s = rw (emit-append n n [] (b'|' ∷ s)) (read-emit n n (b'|' ∷ s) (omega arith))

-- A number before a bar is determined by the text, and so is what follows.
decimal_cut :
    (a b : ℕ) (s t : Bytes) → decimal a ++ b'|' ∷ s ≡ decimal b ++ b'|' ∷ t → (a ≡ b) × (s ≡ t)
decimal_cut a b s t h =
    let e = sym (read-decimal a s) ∙ ap (read 0) h ∙ read-decimal b t in (cc, cc)

icmp_key-eq : (a b c d : ℕ) → icmp_key a b ≡ icmp_key c d → (a ≡ c) × (b ≡ d)
unfolding icmp_key
icmp_key-eq a b c d h =
    let (e, t) = decimal_cut a c _ _ h in let (f, _) = decimal_cut b d _ _ t in (e, f)

port_key-eq :
    (a b p q : ℕ) (s : Bytes) (c d u v : ℕ) (t : Bytes)
    → port_key a b p q s ≡ port_key c d u v t
    → (a ≡ c) × (b ≡ d) × (p ≡ u) × (q ≡ v) × (s ≡ t)
unfolding port_key
port_key-eq a b p q s c d u v t h =
    let (e1, h1) = decimal_cut a c _ _ h in
    let (e2, h2) = decimal_cut b d _ _ h1 in
    let (e3, h3) = decimal_cut p u _ _ h2 in
    let (e4, h4) = decimal_cut q v _ _ h3 in (e1, e2, e3, e4, h4)

icmp_key-ne-port_key : (a b c d p q : ℕ) (s : Bytes) → icmp_key a b ≢ port_key c d p q s
unfolding icmp_key port_key read
icmp_key-ne-port_key a b c d p q s h =
    let (_, h1) = decimal_cut a c _ _ h in
    let (_, h2) = decimal_cut b d _ _ h1 in
    let e = ap (read 0) h2 ∙ read-decimal p (decimal q ++ b'|' ∷ s) in ground arith

abbrev pub IsIcmp : HoleInfo → Type 0
IsIcmp i = i.protocol ≡ codes "icmp"

-- The same conversation: the same protocol, and the same two ends, in either order. ICMP has no
-- ports, so they do not count there.
abbrev pub SameFlow : HoleInfo → HoleInfo → Type 0
SameFlow i j =
    (i.protocol ≡ j.protocol)
    × (((i.src_ip ≡ j.src_ip)
          × (i.dst_ip ≡ j.dst_ip)
          × (IsIcmp i ⊎ ((i.src_port ≡ j.src_port) × (i.dst_port ≡ j.dst_port))))
        ⊎ ((i.src_ip ≡ j.dst_ip)
            × (i.dst_ip ≡ j.src_ip)
            × (IsIcmp i ⊎ ((i.src_port ≡ j.dst_port) × (i.dst_port ≡ j.src_port)))))

-- What the key is, on each branch of makeFlowKey.
abbrev IcmpForm : HoleInfo → Type 0
IcmpForm i = (flow_key i ≡ icmp_key i.src_ip i.dst_ip) ⊎ (flow_key i ≡ icmp_key i.dst_ip i.src_ip)

flow_key-icmp : (i : HoleInfo) → IsIcmp i → IcmpForm i
unfolding flow_key make_flow_key
flow_key-icmp i h = ground (arith, bytes_beq_iff i.protocol (codes "icmp"))

abbrev PortForm : HoleInfo → Type 0
PortForm i =
    (flow_key i ≡ port_key i.src_ip i.dst_ip i.src_port i.dst_port i.protocol)
    ⊎ (flow_key i ≡ port_key i.dst_ip i.src_ip i.dst_port i.src_port i.protocol)

flow_key-port : (i : HoleInfo) → ¬ IsIcmp i → PortForm i
unfolding flow_key make_flow_key
flow_key-port i h = ground (arith, bytes_beq_iff i.protocol (codes "icmp"))

IsIcmp-cases : (i : HoleInfo) → IsIcmp i ⊎ (¬ IsIcmp i)
IsIcmp-cases i = elim (Bool-cases (bytes_beq i.protocol (codes "icmp"))) [
  | inl e ↦ inl ((bytes_beq_iff i.protocol (codes "icmp")).0 e)
  | inr e ↦ inr (λ h. cc (e, (bytes_beq_iff i.protocol (codes "icmp")).1 h))
]

same_icmp :
    (i j : HoleInfo)
    → IsIcmp i
    → IsIcmp j
    → IcmpForm i
    → IcmpForm j
    → flow_key i ≡ flow_key j
    → SameFlow i j
same_icmp i j hi hj (inl p) (inl q) e =
    let (x, y) = icmp_key-eq _ _ _ _ (sym p ∙ e ∙ q) in (cc, inl (x, y, inl hi))
same_icmp i j hi hj (inl p) (inr q) e =
    let (x, y) = icmp_key-eq _ _ _ _ (sym p ∙ e ∙ q) in (cc, inr (x, y, inl hi))
same_icmp i j hi hj (inr p) (inl q) e =
    let (x, y) = icmp_key-eq _ _ _ _ (sym p ∙ e ∙ q) in (cc, inr (y, x, inl hi))
same_icmp i j hi hj (inr p) (inr q) e =
    let (x, y) = icmp_key-eq _ _ _ _ (sym p ∙ e ∙ q) in (cc, inl (y, x, inl hi))

same_ports : (i j : HoleInfo) → PortForm i → PortForm j → flow_key i ≡ flow_key j → SameFlow i j
same_ports i j (inl p) (inl q) e =
    let (x, y, u, v, s) = port_key-eq _ _ _ _ _ _ _ _ _ _ (sym p ∙ e ∙ q) in
    (s, inl (x, y, inr (u, v)))
same_ports i j (inl p) (inr q) e =
    let (x, y, u, v, s) = port_key-eq _ _ _ _ _ _ _ _ _ _ (sym p ∙ e ∙ q) in
    (s, inr (x, y, inr (u, v)))
same_ports i j (inr p) (inl q) e =
    let (x, y, u, v, s) = port_key-eq _ _ _ _ _ _ _ _ _ _ (sym p ∙ e ∙ q) in
    (s, inr (y, x, inr (v, u)))
same_ports i j (inr p) (inr q) e =
    let (x, y, u, v, s) = port_key-eq _ _ _ _ _ _ _ _ _ _ (sym p ∙ e ∙ q) in
    (s, inl (y, x, inr (v, u)))

mixed : (i j : HoleInfo) → IcmpForm i → PortForm j → flow_key i ≢ flow_key j
mixed i j (inl p) (inl q) e = icmp_key-ne-port_key _ _ _ _ _ _ _ (sym p ∙ e ∙ q)
mixed i j (inl p) (inr q) e = icmp_key-ne-port_key _ _ _ _ _ _ _ (sym p ∙ e ∙ q)
mixed i j (inr p) (inl q) e = icmp_key-ne-port_key _ _ _ _ _ _ _ (sym p ∙ e ∙ q)
mixed i j (inr p) (inr q) e = icmp_key-ne-port_key _ _ _ _ _ _ _ (sym p ∙ e ∙ q)

flow_key_sound : (i j : HoleInfo) → flow_key i ≡ flow_key j → SameFlow i j
flow_key_sound i j e = elim (IsIcmp-cases i) [
  | inl hi ↦ elim (IsIcmp-cases j) [
    | inl hj ↦ same_icmp i j hi hj (flow_key-icmp i hi) (flow_key-icmp j hj) e
    | inr hj ↦ absurd (mixed i j (flow_key-icmp i hi) (flow_key-port j hj) e)
  ]
  | inr hi ↦ elim (IsIcmp-cases j) [
    | inl hj ↦ absurd (mixed j i (flow_key-icmp j hj) (flow_key-port i hi) (sym e))
    | inr hj ↦ same_ports i j (flow_key-port i hi) (flow_key-port j hj) e
  ]
]

flow_key_complete : (i j : HoleInfo) → SameFlow i j → flow_key i ≡ flow_key j
unfolding flow_key make_flow_key
flow_key_complete i j h =
    ground (arith, bytes_beq_iff i.protocol (codes "icmp"), bytes_beq_iff j.protocol (codes "icmp"))

-- Two packets have the same flow key exactly when they belong to the same conversation: the same
-- protocol and the same two ends in either order, where the ports count unless it is ICMP.
pub flow_key_iff : (i j : HoleInfo) → (flow_key i ≡ flow_key j) ↔ SameFlow i j
flow_key_iff i j = (flow_key_sound i j, flow_key_complete i j)
