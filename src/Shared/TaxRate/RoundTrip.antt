-- ===== src/Shared/TaxRate/RoundTrip.antt =====
-- The tax that `includeIn` adds is the tax that `extractFrom` finds.
use cullen.Prelude.{ℕ, zero, suc, ◌+◌, ◌*◌, ◌≡◌, arith}
use cullen.Prelude.Int.{
  ℤ, pos, negsuc, neg_ℕ, ◌+ℤ◌, ◌-ℤ◌, ◌*ℤ◌, neg_ℕ_mul, neg_ℕ_add, neg_ℕ_sub, pos_add, pos_sub,
}
use cullen.Shared.Result.{ok}
use cullen.Shared.Rounding.{divide_rounding_half_away_from_zero}
use cullen.Shared.Rounding.Nearest.{
  half_up, half_up_nearest, half_up_unique, divide_rounding-pos, divide_rounding-neg_ℕ,
}
use cullen.Shared.Money.{
  Money, add, apply_percentage, extract_included_percentage, from_safe_big_int, from_minor_units,
  basis_points_denominator,
}
use cullen.Shared.TaxRate.{TaxRate, apply_to, extract_from, include_in}

-- On magnitudes: b is the number nearest to (b + t) D / (D + p), t being nearest to b p / D.
base_of_gross : (b p : ℕ) → half_up ((b + half_up (b * p) 10000) * 10000) (10000 + p) ≡ b
base_of_gross b zero =
    half_up_unique _ _ b (omega arith) (omega (arith, half_up_nearest (b * 0) 10000 (omega arith)))
      (omega (arith, half_up_nearest (b * 0) 10000 (omega arith)))
base_of_gross b (suc p) =
    half_up_unique _ _ b (omega arith)
      (omega (arith, half_up_nearest (b * suc p) 10000 (omega arith)))
      (omega (arith, half_up_nearest (b * suc p) 10000 (omega arith)))

-- The amount of tax that `applyTo` rounds to, before the overflow check.
abbrev tax_units : ℤ → ℕ → ℤ
tax_units m p = divide_rounding_half_away_from_zero (m *ℤ pos p) (pos basis_points_denominator)

-- The amount that `extractFrom` returns, before the overflow check.
abbrev included_units : ℤ → ℕ → ℤ
included_units g p =
    g
    -ℤ divide_rounding_half_away_from_zero (g *ℤ pos basis_points_denominator)
        (pos (basis_points_denominator + p))

included-neg_ℕ :
    (b p : ℕ) → included_units (neg_ℕ b +ℤ tax_units (neg_ℕ b) p) p ≡ tax_units (neg_ℕ b) p
included-neg_ℕ b p =
    let t = half_up (b * p) 10000 in
    simp (
      neg_ℕ_mul,
      divide_rounding-neg_ℕ (b * p) 10000 (omega arith),
      neg_ℕ_add b t,
      divide_rounding-neg_ℕ ((b + t) * 10000) (10000 + p) (omega arith),
      base_of_gross b p,
      neg_ℕ_sub b t,
    )

included-pos : (b p : ℕ) → included_units (pos b +ℤ tax_units (pos b) p) p ≡ tax_units (pos b) p
unfolding ◌*ℤ◌
included-pos b p =
    let t = half_up (b * p) 10000 in
    simp (divide_rounding-pos, pos_add b t, base_of_gross b p, pos_sub b t)

included : (m : ℤ) (p : ℕ) → included_units (m +ℤ tax_units m p) p ≡ tax_units m p
included (pos b) p = included-pos b p
included (negsuc b) p = included-neg_ℕ (suc b) p

-- If the gross amount g of m is computed without an error, then the tax on m is some amount t, g is
-- m plus t, and extracting the tax from g gives t again, whatever the rate and the sign of m.
pub extract_from-include_in :
    (rate : TaxRate) (m g : Money)
    → include_in rate m ≡ ok g
    → (t : Money) × (apply_to rate m ≡ ok t) × (add m t ≡ ok g) × (extract_from rate g ≡ ok t)
unfolding include_in apply_to extract_from apply_percentage extract_included_percentage add
    from_safe_big_int from_minor_units
extract_from-include_in rate m g h = (
  record {
    minor_units = tax_units m.minor_units rate.percentage.basis_points;
    currency = m.currency;
  },
  ground arith,
  ground arith,
  ground (arith, included m.minor_units rate.percentage.basis_points),
)
