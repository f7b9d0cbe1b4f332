-- ===== src/Prelude/Bits.antt =====
-- `|` and `&` on machine words, split at a bit position: what the key of a rule and the mask of a
-- network need.
use Prim.Native.Nat.{min, max, digits, bit_and-bitwise, bit_or-bitwise}
use Prim.Native.Nat.{ℕ, zero, suc, ◌+◌, ◌-◌, ◌*◌, ◌/◌, ◌%◌, ◌^◌, ◌≤◌, ◌<◌, bit_and, bit_or}
use mathlib.Core.Path.{◌≡◌, refl, ap}
use native.Mathlib.Nat.{pow-suc, one-le-pow}
use native.Mathlib.Omega.{arith}

-- Any fuel that covers the first operand gives the same digits.
module _ (rest : ℕ → ℕ) (bit : ℕ → ℕ → ℕ) where
  same_digits : (a b : ℕ) (n m : ℕ) → a ≤ n → a ≤ m → digits rest bit n a b ≡ digits rest bit m a b
  same_digits zero b zero zero p q = refl
  same_digits zero b zero (suc m) p q = refl
  same_digits zero b (suc n) zero p q = refl
  same_digits zero b (suc n) (suc m) p q = refl
  same_digits (suc a) b zero m p q = absurd (omega arith)
  same_digits (suc a) b (suc n) zero p q = absurd (omega arith)
  same_digits (suc a) b (suc n) (suc m) p q =
      let half : suc a / 2 ≤ n = omega arith in
      let half' : suc a / 2 ≤ m = omega arith in rw (same_digits (suc a / 2) (b / 2) n m half half')

or_low_bit : (a b : ℕ) → bit_or a b ≡ bit_or (a / 2) (b / 2) * 2 + max (a % 2) (b % 2)
or_low_bit zero b = simp bit_or-bitwise (omega arith)
or_low_bit (suc a) b = simp bit_or-bitwise (
    omega (
      arith,
      same_digits (λ y. y) max (suc a / 2) (b / 2) a (suc a / 2) (omega arith) (omega arith),
    ))

and_low_bit : (a b : ℕ) → bit_and a b ≡ bit_and (a / 2) (b / 2) * 2 + min (a % 2) (b % 2)
and_low_bit zero b = simp bit_and-bitwise (omega arith)
and_low_bit (suc a) b = simp bit_and-bitwise (
    omega (
      arith,
      same_digits (λ y. 0) min (suc a / 2) (b / 2) a (suc a / 2) (omega arith) (omega arith),
    ))

double : (q k : ℕ) → q * 2 ^ suc k ≡ 2 * (q * 2 ^ k)
double q k = omega (arith, ap (λ (t : ℕ). q * t) (pow-suc 2 k))

-- Two words cut at bit `k` are combined part by part.
or_parts :
    (k a b r s : ℕ)
    → r < 2 ^ k
    → s < 2 ^ k
    → bit_or (a * 2 ^ k + r) (b * 2 ^ k + s) ≡ bit_or a b * 2 ^ k + bit_or r s
or_parts zero a b zero zero p q = ground arith
or_parts zero a b (suc r) s p q = absurd (omega arith)
or_parts zero a b zero (suc s) p q = absurd (omega arith)
or_parts (suc k) a b r s p q = ground (
  arith,
  or_low_bit (a * 2 ^ suc k + r) (b * 2 ^ suc k + s),
  or_low_bit r s,
  double a k,
  double b k,
  double (bit_or a b) k,
  pow-suc 2 k,
  or_parts k a b (r / 2) (s / 2) (omega (arith, pow-suc 2 k)) (omega (arith, pow-suc 2 k)),
)

and_parts :
    (k a b r s : ℕ)
    → r < 2 ^ k
    → s < 2 ^ k
    → bit_and (a * 2 ^ k + r) (b * 2 ^ k + s) ≡ bit_and a b * 2 ^ k + bit_and r s
and_parts zero a b zero zero p q = ground arith
and_parts zero a b (suc r) s p q = absurd (omega arith)
and_parts zero a b zero (suc s) p q = absurd (omega arith)
and_parts (suc k) a b r s p q = ground (
  arith,
  and_low_bit (a * 2 ^ suc k + r) (b * 2 ^ suc k + s),
  and_low_bit r s,
  double a k,
  double b k,
  double (bit_and a b) k,
  pow-suc 2 k,
  and_parts k a b (r / 2) (s / 2) (omega (arith, pow-suc 2 k)) (omega (arith, pow-suc 2 k)),
)

or_zero_left : (b : ℕ) → bit_or 0 b ≡ b
or_zero_left b = simp bit_or-bitwise refl

or_zero_right : (n a : ℕ) → a ≤ n → bit_or a 0 ≡ a
or_zero_right n zero h = refl
or_zero_right zero (suc a) h = absurd (omega arith)
or_zero_right (suc n) (suc a) h =
    omega (arith, or_low_bit (suc a) 0, or_zero_right n (suc a / 2) (omega arith))

and_zero_right : (n a : ℕ) → a ≤ n → bit_and a 0 ≡ 0
and_zero_right n zero h = refl
and_zero_right zero (suc a) h = absurd (omega arith)
and_zero_right (suc n) (suc a) h =
    omega (arith, and_low_bit (suc a) 0, and_zero_right n (suc a / 2) (omega arith))

-- `a << k | r` is a sum when `r` fits below bit `k`.
pub or_shifted : (k a r : ℕ) → r < 2 ^ k → bit_or (a * 2 ^ k) r ≡ a * 2 ^ k + r
or_shifted k a r h = ground (
  arith,
  one-le-pow k 2 (omega arith),
  or_parts k a 0 0 r (omega (arith, one-le-pow k 2)) h,
  or_zero_right a a (omega arith),
  or_zero_left r,
)

ones : (k r : ℕ) → r < 2 ^ k → bit_and r (2 ^ k - 1) ≡ r
ones zero zero h = refl
ones zero (suc r) h = absurd (omega arith)
ones (suc k) r h = ground (
  arith,
  pow-suc 2 k,
  one-le-pow k 2 (omega arith),
  and_low_bit r (2 ^ suc k - 1),
  ones k (r / 2) (omega (arith, pow-suc 2 k)),
)

-- `a & (1 << k - 1)` is the remainder.
pub and_low_mask : (k a : ℕ) → bit_and a (2 ^ k - 1) ≡ a % 2 ^ k
and_low_mask k a = ground (
  arith,
  one-le-pow k 2 (omega arith),
  and_parts k (a / 2 ^ k) 0 (a % 2 ^ k) (2 ^ k - 1),
  and_zero_right (a / 2 ^ k) (a / 2 ^ k) (omega arith),
  ones k (a % 2 ^ k),
)

-- A mask of `n` ones above `k` zeros keeps the bits from `k` to `n + k`.
pub and_high_mask :
    (n k a : ℕ) → a / 2 ^ k < 2 ^ n → bit_and a ((2 ^ n - 1) * 2 ^ k) ≡ (a / 2 ^ k) * 2 ^ k
and_high_mask n k a h = ground (
  arith,
  one-le-pow k 2 (omega arith),
  and_parts k (a / 2 ^ k) (2 ^ n - 1) (a % 2 ^ k) 0,
  and_zero_right (a % 2 ^ k) (a % 2 ^ k) (omega arith),
  ones n (a / 2 ^ k),
)
