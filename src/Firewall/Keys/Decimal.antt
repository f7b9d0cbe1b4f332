-- ===== src/Firewall/Keys/Decimal.antt =====
-- The decimal print of `%d`, as fmt.Sprintf documents it: most significant digit first, no
-- leading zero, "0" for zero.
use Prim.Native.Nat.{◌/◌, ◌%◌, ◌+◌}
use liberator_node_go.Prelude.{ℕ, zero, suc, ◌≡◌, [], ◌∷◌, Bytes, if◌then◌else◌, ltb, codes, refl}

-- The digits of `n` in front of `out`; each round divides by ten, so `n` rounds are enough.
unfoldable pub emit : ℕ → ℕ → Bytes → Bytes
emit zero n out = (b'0' + n % 10) ∷ out
emit (suc fuel) n out =
    let rest = emit fuel (n / 10) ((b'0' + n % 10) ∷ out) in
    if ltb n 10 then (b'0' + n % 10) ∷ out else rest

unfoldable pub decimal : ℕ → Bytes
unfolding emit
decimal n = emit n n []

decimal_test : decimal 4294967295 ≡ codes "4294967295"
unfolding decimal
decimal_test = refl
