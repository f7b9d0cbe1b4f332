-- ===== src/Dgmessage.antt =====
-- internal/utils/dgmessage/dgmessage.go: a packet with the flow that its headers name. Bytes are
-- numbers; a read past the end of the packet is the outcome `panic`. The pool only recycles the
-- memory of messages, and every field of a message is written before it is handed out.
pub mod Parse
pub mod Bounds
pub mod Tests
use liberator_node_go.Prelude.{
  ℕ, zero, suc, ◌+◌, ◌-◌, ◌*◌, ◌/◌, ◌%◌, ◌^◌, ◌≤◌, ◌<◌, bit_and, bit_or, ◌≡◌, refl, sym, ap, subst,
  ◌∙◌, ◌≢◌, ◌↔◌, ◌⊎◌, inl, inr, Bool, true, false, not, ◌&&◌, ◌||◌, Option, none, some, List, [],
  ◌∷◌, ◌++◌, map, arith, if◌then◌else◌, ltb, leb, ◌==◌, bool_beq, bytes_ltb, bytes_ltb_flip,
  bytes_ltb_irrefl, Bytes, codes, bytes_beq, bytes_beq_iff, keep, length, nat_eq, bytes_eq, ==_iff,
  Bool-cases, Option-cases, In, All,
}
use liberator_node_go.Prelude.{get_elem?}

-- HoleInfo; the protocol is the Go string "tcp", "udp" or "icmp".
pub record HoleInfo : Type 0 where
  pub src_ip : ℕ
  pub dst_ip : ℕ
  pub src_port : ℕ
  pub dst_port : ℕ
  pub protocol : Bytes

-- DatagramMessage, less the pool that it goes back to; `payload` is the field Data.
pub record Message : Type 0 where
  pub payload : Bytes
  pub ip_version : ℕ
  pub hole_info : HoleInfo

pub data ParseError : Type 0 where
  too_small not_ipv4 too_big small_tcp small_udp unsupported : ParseError

pub data Outcome (A : Type 0) : Type 0 where
  ok : A → Outcome A
  err : ParseError → Outcome A
  panic : Outcome A

infixl 5 ◌>>=◌ ◌>>◌
abbrev pub ◌>>=◌ : {A B : Type 0} → Outcome A → (A → Outcome B) → Outcome B
ok a >>= f = f a
err e >>= f = err e
panic >>= f = panic

abbrev pub ◌>>◌ : {B : Type 0} → Outcome (Unit {0}) → Outcome B → Outcome B
m >> k = m >>= λ _. k

-- if !ok { return nil, e }
abbrev pub require : Bool → ParseError → Outcome (Unit {0})
require true e = ok tt
require false e = err e

-- copyFrom[i]
unfoldable pub byte_at : ℕ → Bytes → Outcome ℕ
byte_at i bs = elim (get_elem? bs i) [ none ↦ panic | some b ↦ ok b ]

-- binary.BigEndian.Uint16(copyFrom[i : i+2])
unfoldable pub uint16_at : ℕ → Bytes → Outcome ℕ
unfolding byte_at
uint16_at i bs = do a ← byte_at i bs; b ← byte_at (i + 1) bs; ok (a * 256 + b)

-- binary.BigEndian.Uint32(copyFrom[i : i+4])
unfoldable pub uint32_at : ℕ → Bytes → Outcome ℕ
unfolding uint16_at
uint32_at i bs = do a ← uint16_at i bs; b ← uint16_at (i + 2) bs; ok (a * 65536 + b)

-- The protocol and the two ports, read behind a header of `ihl` bytes.
unfoldable pub ports_at : ℕ → Bytes → Bytes → Outcome (Bytes × ℕ × ℕ)
unfolding uint16_at
ports_at ihl name bs = do src ← uint16_at ihl bs; dst ← uint16_at (ihl + 2) bs; ok (name, src, dst)

-- The switch on copyFrom[9].
unfoldable pub layer4 : ℕ → ℕ → Bytes → Outcome (Bytes × ℕ × ℕ)
unfolding ports_at
layer4 proto ihl bs =
    if proto == 6
    then (do require (leb (ihl + 14) (length bs)) small_tcp; ports_at ihl (codes "tcp") bs)
    else if proto == 17
    then (do require (leb (ihl + 8) (length bs)) small_udp; ports_at ihl (codes "udp") bs)
    else if proto == 1
    then ok (codes "icmp", 0, 0)
    else err unsupported

-- NewMessageCopyFrom with a pool of messages of `max_size` bytes
unfoldable pub new_message_copy_from : ℕ → Bytes → Outcome Message
unfolding byte_at uint32_at layer4
new_message_copy_from max_size bs = do
  require (leb 20 (length bs)) too_small
  first ← byte_at 0 bs
  require (first / 16 == 4) not_ipv4
  require (leb (length bs) max_size) too_big
  let ihl = bit_and first 0x0F * 4
  proto ← byte_at 9 bs
  l4 ← layer4 proto ihl bs
  src ← uint32_at 12 bs
  dst ← uint32_at 16 bs
  ok (record {
    payload = bs;
    ip_version = 4;
    hole_info = record {
      src_ip = src;
      dst_ip = dst;
      src_port = l4.1;
      dst_port = l4.2;
      protocol = l4.0;
    };
  })
