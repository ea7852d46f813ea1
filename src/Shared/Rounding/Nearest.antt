-- ===== src/Shared/Rounding/Nearest.antt =====
-- The quotient is the nearest integer, ties going away from zero.
use cullen.Prelude.{ℕ, zero, suc, ◌+◌, ◌*◌, ◌/◌, ◌%◌, ◌≤◌, ◌<◌, ◌≡◌, ◌∙◌, arith, leb, if◌then◌else◌}
use native.Mathlib.Nat.{div-add-mod', mod-lt, mul-le-mul_right}
use native.Mathlib.Decide.{dec_le}
use cullen.Prelude.Int.{
  ℤ, pos, negsuc, neg_ℕ, nat_abs, pos_part, neg_part, pos_part-neg_ℕ, neg_part-neg_ℕ, nat_abs-neg_ℕ,
}
use cullen.Shared.Rounding.{divide_rounding_half_away_from_zero}

-- The nearest natural number to a / d, the greater of two.
unfoldable pub half_up : ℕ → ℕ → ℕ
half_up a d = a / d + (if leb d (2 * (a % d)) then 1 else 0)

-- On a non-negative numerator and a positive denominator it rounds half up.
pub divide_rounding-pos :
    (a d : ℕ) → divide_rounding_half_away_from_zero (pos a) (pos d) ≡ pos (half_up a d)
unfolding divide_rounding_half_away_from_zero half_up
divide_rounding-pos a d = ground arith

pub divide_rounding-negsuc :
    (a d : ℕ)
    → 0 < d
    → divide_rounding_half_away_from_zero (negsuc a) (pos d) ≡ neg_ℕ (half_up (suc a) d)
unfolding divide_rounding_half_away_from_zero half_up
divide_rounding-negsuc a d h = ground arith

pub half_up_nearest :
    (a d : ℕ) → 0 < d → (2 * (half_up a d * d) ≤ 2 * a + d) × (2 * a < 2 * (half_up a d * d) + d)
unfolding half_up
half_up_nearest a d h = grind (arith, div-add-mod' a d, mod-lt a h)

-- Two such numbers are equal.
pub nearest_le : (a d q r : ℕ) → 2 * (q * d) ≤ 2 * a + d → 2 * a < 2 * (r * d) + d → q ≤ r
nearest_le a d q r h k = elim (dec_le q r) [ yes le ↦ le | no gt ↦ absurd (lemma (omega arith)) ]
  where
    lemma : r + 1 ≤ q → ⊥
    lemma l = let m : (r + 1) * d ≤ q * d = mul-le-mul_right d l in omega arith

pub half_up_unique :
    (a d q : ℕ) → 0 < d → 2 * (q * d) ≤ 2 * a + d → 2 * a < 2 * (q * d) + d → half_up a d ≡ q
half_up_unique a d q h lo hi =
    let (lo', hi') = half_up_nearest a d h in
    omega (arith, nearest_le a d q (half_up a d) lo hi', nearest_le a d (half_up a d) q lo' hi)

pub half_up_zero : (d : ℕ) → 0 < d → half_up 0 d ≡ 0
half_up_zero d h = half_up_unique 0 d 0 h (omega arith) (omega arith)

pub divide_rounding-neg_ℕ :
    (a d : ℕ) → 0 < d → divide_rounding_half_away_from_zero (neg_ℕ a) (pos d) ≡ neg_ℕ (half_up a d)
divide_rounding-neg_ℕ zero d h = divide_rounding-pos 0 d ∙ rw (half_up_zero d h)
divide_rounding-neg_ℕ (suc a) d h = divide_rounding-negsuc a d h

-- For a positive denominator d the result q is the integer nearest to n / d, and of two that are
-- equally near the one farther from zero: 2 |q| d is at most 2 |n| + d, and 2 |n| is less than
-- 2 |q| d + d. Of q and n it is never the case that one is positive and the other negative.
pub divide_rounding_nearest :
    (n : ℤ) (d : ℕ)
    → 0 < d
    → let q = divide_rounding_half_away_from_zero n (pos d) in
      (2 * (nat_abs q * d) ≤ 2 * nat_abs n + d)
      × (2 * nat_abs n < 2 * (nat_abs q * d) + d)
      × (pos_part q * neg_part n ≡ 0)
      × (neg_part q * pos_part n ≡ 0)
divide_rounding_nearest (pos a) d h =
    rw (divide_rounding-pos a d) (omega (arith, half_up_nearest a d h))
divide_rounding_nearest (negsuc a) d h = rw (divide_rounding-negsuc a d h) (
    simp (pos_part-neg_ℕ, neg_part-neg_ℕ, nat_abs-neg_ℕ)
      (omega (arith, half_up_nearest (suc a) d h)))
