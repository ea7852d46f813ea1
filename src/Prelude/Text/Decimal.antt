-- ===== src/Prelude/Text/Decimal.antt =====
-- The text of a number: `String(n)` of an integer below 10 ^ 21.
use cullen.Prelude.Tests.{ltb, Bool-cases}
use cullen.Prelude.Int.{ℤ, pos, negsuc}
use cullen.Prelude.Text.{Text}
use Prim.Native.Nat.{ℕ, zero, suc, ◌+◌, ◌/◌, ◌%◌, ◌<◌}
use mathlib.Core.Path.{◌≡◌}
use mathlib.Core.Logic.{inl, inr}
use mathlib.Core.Bool.{true, false}
use mathlib.Core.List.{[], ◌∷◌}
use native.Mathlib.Omega.{arith}

-- The digits of a number before those found so far. The fuel bounds their number.
unfoldable pub digits_from : ℕ → ℕ → Text → Text
digits_from zero n found = found
digits_from (suc fuel) n found = elim (ltb n 10) [
  | true ↦ (b'0' + n) ∷ found
  | false ↦ digits_from fuel (n / 10) ((b'0' + n % 10) ∷ found)
]

-- `String(n)`
unfoldable pub show_ℤ : ℤ → Text
unfolding digits_from
show_ℤ (pos n) = digits_from (suc n) n []
show_ℤ (negsuc n) = b'-' ∷ digits_from (suc (suc n)) (suc n) []

smaller : (f n : ℕ) → ltb n 10 ≡ false → n < suc f → n / 10 < f
smaller f n b h = ground (arith, b, h)

-- More fuel than the number gives the same digits.
pub digits_from-fuel :
    (f g n : ℕ) (found : Text) → n < f → n < g → digits_from f n found ≡ digits_from g n found
unfolding digits_from
digits_from-fuel zero g n found h k = absurd (omega (arith, h))
digits_from-fuel (suc f) zero n found h k = absurd (omega (arith, k))
digits_from-fuel (suc f) (suc g) n found h k = elim (Bool-cases (ltb n 10)) [
  | inl a ↦ ground (arith, a)
  | inr b ↦ ground (
    arith,
    b,
    digits_from-fuel f g (n / 10) ((b'0' + n % 10) ∷ found) (smaller f n b h) (smaller g n b k),
  )
]
