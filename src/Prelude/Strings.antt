-- ===== src/Prelude/Strings.antt =====
-- Go strings: byte sequences, compared byte by byte, and the decimal print of `%d`.
use Prim.Native.Nat.{ℕ}
use Prim.Native.Char.{code}
use Prim.Native.String.{String}
use mathlib.Core.Path.{◌≡◌, refl}
use mathlib.Core.Logic.{◌↔◌, ◌≢◌}
use mathlib.Core.List.{List, [], ◌∷◌}
use mathlib.Core.Bool.{Bool, true, false, ◌&&◌, ◌||◌}
use native.Mathlib.Omega.{arith}
use liberator_node_go.Prelude.Tests.{if◌then◌else◌, ◌==◌, ltb, Eq}

abbrev pub Bytes : Type 0
Bytes = List ℕ

-- The code points of a literal; these are its bytes where the text is ASCII.
abbrev pub codes : String → Bytes
codes String.[] = []
codes (String.◌∷◌ c s) = code c ∷ codes s

abbrev pub bytes_beq : Bytes → Bytes → Bool
bytes_beq [] [] = true
bytes_beq [] (d ∷ t) = false
bytes_beq (c ∷ s) [] = false
bytes_beq (c ∷ s) (d ∷ t) = c == d && bytes_beq s t

pub bytes_beq_iff : (s t : Bytes) → (bytes_beq s t ≡ true) ↔ (s ≡ t)
bytes_beq_iff [] [] = (λ _. refl, λ _. refl)
bytes_beq_iff [] (d ∷ t) = (λ h. cc, λ h. cc)
bytes_beq_iff (c ∷ s) [] = (λ h. cc, λ h. cc)
bytes_beq_iff (c ∷ s) (d ∷ t) =
    (λ h. ground (arith, bytes_beq_iff s t), λ h. ground (arith, bytes_beq_iff s t))

instance abbrev pub bytes_eq : Eq Bytes
bytes_eq = record { beq = bytes_beq; beq_iff = bytes_beq_iff }

-- s < t on Go strings.
abbrev pub bytes_ltb : Bytes → Bytes → Bool
bytes_ltb [] [] = false
bytes_ltb [] (d ∷ t) = true
bytes_ltb (c ∷ s) [] = false
bytes_ltb (c ∷ s) (d ∷ t) = ltb c d || (c == d && bytes_ltb s t)

pub bytes_ltb_irrefl : (s : Bytes) → bytes_ltb s s ≡ false
bytes_ltb_irrefl [] = refl
bytes_ltb_irrefl (c ∷ s) = ground (arith, bytes_ltb_irrefl s)

-- Of two strings that differ exactly one is the smaller.
pub bytes_ltb_flip : (s t : Bytes) → s ≢ t → bytes_ltb t s ≡ (if bytes_ltb s t then false else true)
bytes_ltb_flip [] [] h = absurd (h refl)
bytes_ltb_flip [] (d ∷ t) h = refl
bytes_ltb_flip (c ∷ s) [] h = refl
bytes_ltb_flip (c ∷ s) (d ∷ t) h = ground (arith, bytes_ltb_flip s t)
