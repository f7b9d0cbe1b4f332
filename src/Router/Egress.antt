-- ===== src/Router/Egress.antt =====
-- isForbiddenEgress of pkg/router/router.go.
use liberator_node_go.Prelude.{
  ℕ, ◌+◌, ◌*◌, ◌/◌, ◌^◌, ◌<◌, ◌≡◌, Bool, true, false, ◌&&◌, ◌||◌, List, [], ◌∷◌, arith,
  if◌then◌else◌, leb, ◌==◌, nat_eq, bytes_eq,
}
use liberator_node_go.Netutils.{NativeIpNet, contains, subnet, contains_iff}

-- isForbiddenEgress
unfoldable pub is_forbidden_egress : ℕ → Bool
is_forbidden_egress ip =
    if ip / 2 ^ 24 == 0x00
    then true
    else if ip / 2 ^ 24 == 0x7F
    then true
    else if ip / 2 ^ 24 == 0x0A
    then true
    else if ip / 2 ^ 16 == 0xA9FE
    then true
    else if ip / 2 ^ 16 == 0xC0A8
    then true
    else if leb 0xAC100000 ip && leb ip 0xAC1FFFFF
    then true
    else leb 0xE0000000 ip

-- The blocks that the comments of the function name, in CIDR notation.
abbrev pub blocks : List NativeIpNet
blocks =
    subnet 0 8 24  -- 0.0.0.0/8
    ∷ subnet 127 8 24  -- 127.0.0.0/8
    ∷ subnet 10 8 24  -- 10.0.0.0/8
    ∷ subnet (169 * 256 + 254) 16 16  -- 169.254.0.0/16
    ∷ subnet (192 * 256 + 168) 16 16  -- 192.168.0.0/16
    ∷ subnet (172 * 16 + 1) 12 20  -- 172.16.0.0/12
    ∷ subnet 14 4 28  -- 224.0.0.0/4
    ∷ subnet 15 4 28  -- 240.0.0.0/4
    ∷ []

abbrev pub any_contains : List NativeIpNet → ℕ → Bool
any_contains [] ip = false
any_contains (n ∷ ns) ip = contains n ip || any_contains ns ip

-- On 32-bit addresses the ladder of shifts and comparisons refuses exactly those of the named
-- blocks.
pub is_forbidden_egress_lem :
    (ip : ℕ) → ip < 2 ^ 32 → is_forbidden_egress ip ≡ any_contains blocks ip
unfolding is_forbidden_egress
is_forbidden_egress_lem ip h = ground (
  arith,
  contains_iff 0 8 24 ip (omega arith),
  contains_iff 127 8 24 ip (omega arith),
  contains_iff 10 8 24 ip (omega arith),
  contains_iff (169 * 256 + 254) 16 16 ip (omega arith),
  contains_iff (192 * 256 + 168) 16 16 ip (omega arith),
  contains_iff (172 * 16 + 1) 12 20 ip (omega arith),
  contains_iff 14 4 28 ip (omega arith),
  contains_iff 15 4 28 ip (omega arith),
)
