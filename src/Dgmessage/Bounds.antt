-- ===== src/Dgmessage/Bounds.antt =====
-- The fields that the parser of internal/utils/dgmessage gives fit the integers of the source.
use liberator_node_go.Prelude.{
  ℕ, zero, suc, ◌+◌, ◌*◌, ◌/◌, ◌^◌, ◌≤◌, ◌<◌, bit_and, ◌≡◌, refl, ◌⊎◌, [], ◌∷◌, arith, leb, ◌==◌,
  Bytes, codes, length, nat_eq, bytes_eq, All,
}
use liberator_node_go.Dgmessage.{
  Message, Outcome, ok, err, panic, ◌>>=◌, byte_at, uint16_at, uint32_at, ports_at, layer4, require,
  too_small, not_ipv4, too_big, new_message_copy_from,
}

-- Every element is a byte.
abbrev pub IsBytes : Bytes → Type 0
IsBytes bs = All (λ b. b < 256) bs

-- A chain that succeeds succeeds in each step.
bind_sound :
    {A B : Type 0} (m : Outcome A) (f : A → Outcome B) (b : B)
    → (m >>= f) ≡ ok b
    → (a : A) × (m ≡ ok a) × (f a ≡ ok b)
bind_sound (ok a) f b h = (a, refl, h)
bind_sound (err e) f b h = absurd (ground arith)
bind_sound panic f b h = absurd (ground arith)

byte_at-bound : (i : ℕ) (bs : Bytes) (b : ℕ) → IsBytes bs → byte_at i bs ≡ ok b → b < 256
unfolding byte_at
byte_at-bound i [] b v h = absurd (ground arith)
byte_at-bound zero (c ∷ cs) b v h = ground (arith, v.0)
byte_at-bound (suc i) (c ∷ cs) b v h = byte_at-bound i cs b v.1 h

uint16_at-bound : (i : ℕ) (bs : Bytes) (n : ℕ) → IsBytes bs → uint16_at i bs ≡ ok n → n < 2 ^ 16
unfolding uint16_at
uint16_at-bound i bs n v h =
    let (a, ea, h1) = bind_sound (byte_at i bs) _ n h in
    let (b, eb, h2) = bind_sound (byte_at (i + 1) bs) _ n h1 in
    let ba = byte_at-bound i bs a v ea in let bb = byte_at-bound (i + 1) bs b v eb in ground arith

uint32_at-bound : (i : ℕ) (bs : Bytes) (n : ℕ) → IsBytes bs → uint32_at i bs ≡ ok n → n < 2 ^ 32
unfolding uint32_at
uint32_at-bound i bs n v h =
    let (a, ea, h1) = bind_sound (uint16_at i bs) _ n h in
    let (b, eb, h2) = bind_sound (uint16_at (i + 2) bs) _ n h1 in
    let ba = uint16_at-bound i bs a v ea in
    let bb = uint16_at-bound (i + 2) bs b v eb in ground arith

-- The protocol is one of the three, and the ports are 16-bit numbers.
abbrev IsLayer4 : Bytes × ℕ × ℕ → Type 0
IsLayer4 (name, src, dst) =
    ((name ≡ codes "tcp") ⊎ (name ≡ codes "udp") ⊎ (name ≡ codes "icmp"))
    × (src < 2 ^ 16)
    × (dst < 2 ^ 16)

ports_at-bound :
    (ihl : ℕ) (name bs : Bytes) (r : Bytes × ℕ × ℕ)
    → IsBytes bs
    → ports_at ihl name bs ≡ ok r
    → (name ≡ r.0) × (r.1 < 2 ^ 16) × (r.2 < 2 ^ 16)
unfolding ports_at
ports_at-bound ihl name bs r v h =
    let (a, ea, h1) = bind_sound (uint16_at ihl bs) _ r h in
    let (b, eb, h2) = bind_sound (uint16_at (ihl + 2) bs) _ r h1 in
    let ba = uint16_at-bound ihl bs a v ea in
    let bb = uint16_at-bound (ihl + 2) bs b v eb in ground arith

layer4-bound :
    (proto ihl : ℕ) (bs : Bytes) (r : Bytes × ℕ × ℕ)
    → IsBytes bs
    → layer4 proto ihl bs ≡ ok r
    → ((r.0 ≡ codes "tcp") ⊎ (r.0 ≡ codes "udp") ⊎ (r.0 ≡ codes "icmp"))
      × (r.1 < 2 ^ 16)
      × (r.2 < 2 ^ 16)
unfolding layer4
layer4-bound proto ihl bs r v h =
    ground (arith, ports_at-bound ihl (codes "tcp") bs r v, ports_at-bound ihl (codes "udp") bs r v)

-- A packet of bytes that the parser takes has at least 20 and at most `max_size` bytes, is carried
-- unchanged, and the fields of the message are in their ranges: two 32-bit addresses, two 16-bit
-- ports, and the protocol tcp, udp or icmp, in lower case as the rules of the firewall name it.
pub new_message_copy_from-bounds :
    (max_size : ℕ) (bs : Bytes) (msg : Message)
    → IsBytes bs
    → new_message_copy_from max_size bs ≡ ok msg
    → (msg.payload ≡ bs)
      × (20 ≤ length msg.payload)
      × (length msg.payload ≤ max_size)
      × (msg.hole_info.src_ip < 2 ^ 32)
      × (msg.hole_info.dst_ip < 2 ^ 32)
      × (msg.hole_info.src_port < 2 ^ 16)
      × (msg.hole_info.dst_port < 2 ^ 16)
      × ((msg.hole_info.protocol ≡ codes "tcp")
          ⊎ (msg.hole_info.protocol ≡ codes "udp")
          ⊎ (msg.hole_info.protocol ≡ codes "icmp"))
unfolding new_message_copy_from
new_message_copy_from-bounds max_size bs msg v h =
    let (u1, r1, h1) = bind_sound (require (leb 20 (length bs)) too_small) _ msg h in
    let (first, r2, h2) = bind_sound (byte_at 0 bs) _ msg h1 in
    let (u3, r3, h3) = bind_sound (require (first / 16 == 4) not_ipv4) _ msg h2 in
    let (u4, r4, h4) = bind_sound (require (leb (length bs) max_size) too_big) _ msg h3 in
    let (proto, r5, h5) = bind_sound (byte_at 9 bs) _ msg h4 in
    let (l4, r6, h6) = bind_sound (layer4 proto (bit_and first 0x0F * 4) bs) _ msg h5 in
    let (src, r7, h7) = bind_sound (uint32_at 12 bs) _ msg h6 in
    let (dst, r8, h8) = bind_sound (uint32_at 16 bs) _ msg h7 in
    let (names, sp, dp) = layer4-bound proto (bit_and first 0x0F * 4) bs l4 v r6 in
    let s = uint32_at-bound 12 bs src v r7 in let d = uint32_at-bound 16 bs dst v r8 in ground arith
