-- ===== src/Router/Sharding.antt =====
-- getWorker of pkg/router/sharded.go: packets are handed to a worker by a hash of their flow.
use liberator_node_go.Prelude.{
  ℕ, ◌+◌, ◌*◌, ◌/◌, ◌%◌, ◌^◌, ◌<◌, bit_xor, ◌≡◌, ◌&&◌, ◌||◌, [], ◌∷◌, arith, if◌then◌else◌, ltb,
  ◌==◌, Bytes, nat_eq, bytes_eq,
}
use liberator_node_go.Dgmessage.{HoleInfo}
use liberator_node_go.Firewall.FlowKey.{SameFlow, IsIcmp}

-- The addresses and ports in order: ip1, ip2, port1, port2.
unfoldable pub ordered : HoleInfo → ℕ × ℕ × ℕ × ℕ
ordered hi =
    if ltb hi.dst_ip hi.src_ip || (hi.src_ip == hi.dst_ip && ltb hi.dst_port hi.src_port)
    then (hi.dst_ip, hi.src_ip, hi.dst_port, hi.src_port)
    else (hi.src_ip, hi.dst_ip, hi.src_port, hi.dst_port)

-- h ^= uint64(Protocol[0]) << 48, if there is a first byte
unfoldable pub mix_protocol : Bytes → ℕ → ℕ
mix_protocol [] h = h
mix_protocol (c ∷ s) h = bit_xor h (c * 2 ^ 48 % 2 ^ 64)

-- The scrambling of the 64-bit value to a 32-bit hash.
unfoldable pub scramble : ℕ → ℕ
scramble h =
    let h1 = bit_xor h (h / 2 ^ 32) % 2 ^ 32 in
    let h2 = bit_xor h1 (h1 / 2 ^ 16) in
    let h3 = h2 * 0x85ebca6b % 2 ^ 32 in
    let h4 = bit_xor h3 (h3 / 2 ^ 13) in
    let h5 = h4 * 0xc2b2ae35 % 2 ^ 32 in bit_xor h5 (h5 / 2 ^ 16)

unfoldable pub flow_hash : ℕ × ℕ × ℕ × ℕ → Bytes → ℕ
flow_hash (ip1, ip2, port1, port2) protocol =
    let h = bit_xor (ip1 * 2 ^ 32 % 2 ^ 64) ip2 in
    let h' = ((h * 0x9e3779b97f4a7c15) % 2 ^ 64 + port1 * 2 ^ 16 + port2) % 2 ^ 64 in
    scramble (mix_protocol protocol h')

-- getWorker: the index among `workers` channels
unfoldable pub get_worker : ℕ → HoleInfo → ℕ
get_worker workers hi = flow_hash (ordered hi) hi.protocol % workers

-- The index is one of the workers'.
get_worker-lt : (workers : ℕ) (hi : HoleInfo) → 0 < workers → get_worker workers hi < workers
unfolding get_worker
get_worker-lt workers hi h = grind arith

ordered-same :
    (i j : HoleInfo)
    → SameFlow i j
    → (IsIcmp i → (i.src_port ≡ 0) × (i.dst_port ≡ 0) × (j.src_port ≡ 0) × (j.dst_port ≡ 0))
    → ordered i ≡ ordered j
unfolding ordered
ordered-same i j h z = ground arith

-- All packets of one conversation, in both directions, go to the same worker, and that is one of
-- the workers there are. ICMP packets are read with both ports 0.
pub get_worker-same :
    (workers : ℕ) (i j : HoleInfo)
    → 0 < workers
    → SameFlow i j
    → (IsIcmp i → (i.src_port ≡ 0) × (i.dst_port ≡ 0) × (j.src_port ≡ 0) × (j.dst_port ≡ 0))
    → (get_worker workers i ≡ get_worker workers j) × (get_worker workers i < workers)
unfolding get_worker
get_worker-same workers i j w h z =
    (ground (arith, ordered-same i j h z), unfold get_worker in get_worker-lt workers i w)
