-- ===== src/Prelude/Double.antt =====
-- The arithmetic of `number`: IEEE 754 doubles, whose sums are rounded to 53 significant bits.
pub mod Rounding
use cullen.Prelude.{
  ℕ, zero, suc, ◌+◌, ◌*◌, ◌/◌, ◌%◌, ◌^◌, ◌≤◌, ◌<◌, ◌≡◌, refl, ap, Bool, true, false, not, ltb, leb,
  ◌==◌, arith, Bool-cases, inl, inr, if◌then◌else◌,
}
use cullen.Prelude.Int.{ℤ, pos, negsuc, neg_ℕ, ◌+ℤ◌, ◌-ℤ◌, ◌*ℤ◌, ltb_ℤ, eqb_ℤ, eqb_ℤ→eq}
use cullen.Prelude.Text.{is_safe, max_safe_integer}
use native.Mathlib.Nat.{div-add-mod', mod-lt, mul-le-mul_right}
use native.Mathlib.Decide.{dec_le}

-- 2 ^ 53
abbrev pub significands : ℕ
significands = 9007199254740992

-- The distance of neighbouring doubles at n, at least s, doubled while n does not fit.
unfoldable pub spacing : ℕ → ℕ → ℕ → ℕ
spacing zero n s = s
spacing (suc fuel) n s = elim (ltb n (significands * s)) [
  | true ↦ s
  | false ↦ spacing fuel n (2 * s)
]

-- The multiple of s that is nearest to n, an even one of two.
unfoldable pub nearest_even : ℕ → ℕ → ℕ
nearest_even n s =
    let below = n / s in
    let up = ltb s (2 * (n % s)) in
    let tie = 2 * (n % s) == s in
    if up then (below + 1) * s else if tie then (below + below % 2) * s else below * s

-- The double nearest to n times the smallest positive one. The exponents of doubles span 2046 powers
-- of two, so the fuel finds the spacing of every finite one.
unfoldable pub round : ℕ → ℕ
unfolding spacing nearest_even
round n = nearest_even n (spacing 2046 n 1)

-- The double nearest to a whole number. (Numbers from 2 ^ 1024 on overflow in the code; a sum of
-- quantities stops growing long before, at a distance of neighbours of twice the largest quantity.)
unfoldable pub to_double : ℤ → ℤ
unfolding round
to_double (pos n) = pos (round n)
to_double (negsuc n) = neg_ℕ (round (suc n))

-- `a + b` on numbers that are integers.
unfoldable pub add_numbers : ℤ → ℤ → ℤ
unfolding to_double
add_numbers a b = to_double (a +ℤ b)

-- Any `number`: a finite one counts the smallest positive double, 2 ^ -1074.
pub data Double : Type 0 where
  finite : ℤ → Double
  infinity negative_infinity nan : Double

-- 2 ^ 1074
abbrev pub unit : ℕ
unit = 2 ^ 1074

-- An integer as a number.
abbrev pub of_ℤ : ℤ → Double
of_ℤ z = finite (z *ℤ pos unit)

-- From 2 ^ 1024 on, a number is infinite.
abbrev bounded : ℕ → ℤ → Double → Double
bounded n z out = if ltb n (2 ^ 2098) then finite z else out

unfoldable pub round_double : ℤ → Double
unfolding round
round_double (pos n) = bounded (round n) (pos (round n)) infinity
round_double (negsuc n) = bounded (round (suc n)) (neg_ℕ (round (suc n))) negative_infinity

-- `a - b`
unfoldable pub subtract_doubles : Double → Double → Double
unfolding round_double ◌-ℤ◌
subtract_doubles nan b = nan
subtract_doubles (finite a) (finite b) = round_double (a -ℤ b)
subtract_doubles (finite a) infinity = negative_infinity
subtract_doubles (finite a) negative_infinity = infinity
subtract_doubles (finite a) nan = nan
subtract_doubles infinity (finite b) = infinity
subtract_doubles infinity infinity = nan
subtract_doubles infinity negative_infinity = infinity
subtract_doubles infinity nan = nan
subtract_doubles negative_infinity (finite b) = negative_infinity
subtract_doubles negative_infinity infinity = negative_infinity
subtract_doubles negative_infinity negative_infinity = nan
subtract_doubles negative_infinity nan = nan

-- `a === b`
unfoldable pub eqb_double : Double → Double → Bool
eqb_double (finite a) (finite b) = eqb_ℤ a b
eqb_double (finite a) infinity = false
eqb_double (finite a) negative_infinity = false
eqb_double (finite a) nan = false
eqb_double infinity (finite b) = false
eqb_double infinity infinity = true
eqb_double infinity negative_infinity = false
eqb_double infinity nan = false
eqb_double negative_infinity (finite b) = false
eqb_double negative_infinity infinity = false
eqb_double negative_infinity negative_infinity = true
eqb_double negative_infinity nan = false
eqb_double nan b = false

pub eqb_double→eq : (x y : Double) → eqb_double x y ≡ true → x ≡ y
unfolding eqb_double
eqb_double→eq (finite a) (finite b) h = ap finite (eqb_ℤ→eq a b h)
eqb_double→eq (finite a) infinity h = cc
eqb_double→eq (finite a) negative_infinity h = cc
eqb_double→eq (finite a) nan h = cc
eqb_double→eq infinity (finite b) h = cc
eqb_double→eq infinity infinity h = refl
eqb_double→eq infinity negative_infinity h = cc
eqb_double→eq infinity nan h = cc
eqb_double→eq negative_infinity (finite b) h = cc
eqb_double→eq negative_infinity infinity h = cc
eqb_double→eq negative_infinity negative_infinity h = refl
eqb_double→eq negative_infinity nan h = cc
eqb_double→eq nan y h = cc

-- `a < 0`
abbrev pub is_negative : Double → Bool
is_negative (finite a) = ltb_ℤ a (pos 0)
is_negative infinity = false
is_negative negative_infinity = true
is_negative nan = false
