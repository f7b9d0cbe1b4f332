-- ===== src/Dgmessage/Parse.antt =====
-- NewMessageCopyFrom of internal/utils/dgmessage/dgmessage.go reads no byte that is not there, and
-- reads the fields where RFC 791, 793 and 768 put them.
use liberator_node_go.Prelude.{
  ℕ, zero, suc, ◌+◌, ◌*◌, ◌/◌, ◌%◌, ◌^◌, ◌≤◌, ◌<◌, bit_and, ◌≡◌, refl, ◌≢◌, inl, inr, [], ◌∷◌, ◌++◌,
  arith, leb, Bytes, codes, length, nat_eq, bytes_eq, Bool-cases,
}
use liberator_node_go.Dgmessage.{
  ok, panic, byte_at, uint16_at, uint32_at, ports_at, layer4, new_message_copy_from,
}

byte_at-ok : (i : ℕ) (bs : Bytes) → i < length bs → (b : ℕ) × (byte_at i bs ≡ ok b)
unfolding byte_at
byte_at-ok i [] h = absurd (omega arith)
byte_at-ok zero (b ∷ bs) h = (b, refl)
byte_at-ok (suc i) (b ∷ bs) h = byte_at-ok i bs (omega arith)

uint16_at-ok : (i : ℕ) (bs : Bytes) → i + 1 < length bs → (n : ℕ) × (uint16_at i bs ≡ ok n)
unfolding uint16_at
uint16_at-ok i bs h =
    let (a, e) = byte_at-ok i bs (omega arith) in
    let (b, f) = byte_at-ok (i + 1) bs h in (a * 256 + b, rw (e, uint16_at, f))

uint32_at-ok : (i : ℕ) (bs : Bytes) → i + 3 < length bs → (n : ℕ) × (uint32_at i bs ≡ ok n)
unfolding uint32_at
uint32_at-ok i bs h =
    let (a, e) = uint16_at-ok i bs (omega arith) in
    let (b, f) = uint16_at-ok (i + 2) bs (omega arith) in (a * 65536 + b, rw (e, uint32_at, f))

ports_at-ok :
    (ihl : ℕ) (name bs : Bytes)
    → ihl + 3 < length bs
    → (p : Bytes × ℕ × ℕ) × (ports_at ihl name bs ≡ ok p)
unfolding ports_at
ports_at-ok ihl name bs h =
    let (a, e) = uint16_at-ok ihl bs (omega arith) in
    let (b, f) = uint16_at-ok (ihl + 2) bs (omega arith) in ((name, a, b), rw (e, ports_at, f))

layer4-ne-panic : (proto ihl : ℕ) (bs : Bytes) → layer4 proto ihl bs ≢ panic
unfolding layer4
layer4-ne-panic proto ihl bs h = ground (
  arith,
  λ (q : ihl + 3 < length bs). ports_at-ok ihl (codes "tcp") bs q,
  λ (q : ihl + 3 < length bs). ports_at-ok ihl (codes "udp") bs q,
)

-- No packet makes the parser read out of bounds, whatever its bytes are: a header length that
-- points past the packet, too, is answered by an error.
pub new_message_copy_from-ne-panic :
    (max_size : ℕ) (bs : Bytes) → new_message_copy_from max_size bs ≢ panic
unfolding new_message_copy_from
new_message_copy_from-ne-panic max_size bs h = elim (Bool-cases (leb 20 (length bs))) [
  | inr e ↦ ground arith
  | inl e ↦
      let long : 20 ≤ length bs = ground arith in
      let (b0, e0) = byte_at-ok 0 bs (omega arith) in
      let (b9, e9) = byte_at-ok 9 bs (omega arith) in
      let (s, es) = uint32_at-ok 12 bs (omega arith) in
      let (d, ed) = uint32_at-ok 16 bs (omega arith) in
      ground (arith, layer4-ne-panic b9 (bit_and b0 0x0F * 4) bs)
]

-- A big-endian field of two and of four bytes.
abbrev pub be16 : ℕ → Bytes
be16 n = n / 256 ∷ n % 256 ∷ []

abbrev pub be32 : ℕ → Bytes
be32 n = n / 2 ^ 24 ∷ n / 2 ^ 16 % 256 ∷ n / 2 ^ 8 % 256 ∷ n % 256 ∷ []

-- An IPv4 header with no options: version 4 and 5 words, the service byte and the length, the
-- identification and the fragment fields, the time to live, the protocol, the checksum and the
-- two addresses.
abbrev pub ipv4_header : ℕ → ℕ → ℕ → ℕ → ℕ → ℕ → ℕ → ℕ → ℕ → Bytes
ipv4_header tos len id frag ttl proto sum src dst =
    0x45
    ∷ tos
    ∷ (be16 len ++ (be16 id ++ (be16 frag ++ ttl ∷ proto ∷ (be16 sum ++ (be32 src ++ be32 dst)))))

-- The protocol numbers of ICMP, TCP and UDP, with the least length of what follows the header.
pub data Transport : Type 0 where
  icmp tcp udp : Transport

abbrev pub number : Transport → ℕ
number icmp = 1
number tcp = 6
number udp = 17

abbrev pub name : Transport → Bytes
name icmp = codes "icmp"
name tcp = codes "tcp"
name udp = codes "udp"

abbrev pub least : Transport → ℕ
least icmp = 0
least tcp = 14
least udp = 8

abbrev pub port_of : Transport → ℕ → ℕ
port_of icmp port = 0
port_of tcp port = port
port_of udp port = port

module _ (tos len id frag ttl sum src dst src_port dst_port max_size : ℕ) (rest : Bytes) where
  abbrev pub packet : Transport → Bytes
  packet t =
      ipv4_header tos len id frag ttl (number t) sum src dst
      ++ (be16 src_port ++ (be16 dst_port ++ rest))

  -- A packet with a plain IPv4 header, for ICMP, TCP or UDP, long enough for its transport header
  -- and short enough for the pool, is taken whole, with its addresses, its protocol and, unless it
  -- is ICMP, its ports.
  pub packet-parses :
      (t : Transport)
      → least t ≤ 4 + length rest
      → 24 + length rest ≤ max_size
      → new_message_copy_from max_size (packet t)
        ≡ ok (record {
          payload = packet t;
          ip_version = 4;
          hole_info = record {
            src_ip = src;
            dst_ip = dst;
            src_port = port_of t src_port;
            dst_port = port_of t dst_port;
            protocol = name t;
          };
        })
  unfolding new_message_copy_from
  packet-parses icmp h k = ground arith
  packet-parses tcp h k = ground arith
  packet-parses udp h k = ground arith
