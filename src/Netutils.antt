-- ===== src/Netutils.antt =====
-- internal/utils/netutils/ip.go: NativeIpNet, the subnet test of the router.
use liberator_node_go.Prelude.{
  ℕ, ◌-◌, ◌*◌, ◌/◌, ◌^◌, ◌<◌, bit_and, ◌≡◌, ◌↔◌, Bool, true, arith, ◌==◌, nat_eq, bytes_eq,
}
use native.Mathlib.Nat.{one-le-pow}
use liberator_node_go.Prelude.Bits.{and_high_mask}

-- NativeIpNet
pub record NativeIpNet : Type 0 where
  pub base : ℕ
  pub mask : ℕ

-- Contains
unfoldable pub contains : NativeIpNet → ℕ → Bool
contains n ip = bit_and ip n.mask == n.base

-- The subnet `base/prefix`: what ParseCIDR gives for it, with `host` = 32 - prefix free bits.
abbrev pub subnet : ℕ → ℕ → ℕ → NativeIpNet
subnet base prefix host = record { base = base * 2 ^ host; mask = (2 ^ prefix - 1) * 2 ^ host }

-- An address of at most the bits of the prefix and the host part is in the subnet exactly when
-- it has the subnet's upper bits.
pub contains_iff :
    (base prefix host ip : ℕ)
    → ip / 2 ^ host < 2 ^ prefix
    → (contains (subnet base prefix host) ip ≡ true) ↔ (ip / 2 ^ host ≡ base)
unfolding contains
contains_iff base prefix host ip h =
    let e = and_high_mask prefix host ip h in
    (λ t. grind (arith, e, one-le-pow host 2 (omega arith)), λ q. ground (arith, e))
