-- ===== src/Tests/Amounts.antt =====
-- The theorems on amounts, applied.
use cullen.Prelude.{◌+◌, ◌*◌, ◌≡◌, ◌≤◌, ◌<◌, refl, arith}
use cullen.Prelude.Int.{pos, negsuc, nat_abs, pos_part, neg_part, neg_ℕ, ◌+ℤ◌, ◌*ℤ◌, ◌/ℤ◌, ◌%ℤ◌}
use cullen.Prelude.Text.{eqb, integer}
use cullen.Shared.Result.{ok}
use cullen.Shared.Rounding.{divide_rounding_half_away_from_zero}
use cullen.Shared.Rounding.Nearest.{divide_rounding_nearest}
use cullen.Shared.Money.{
  Money, is_currency_code, from_minor_units, from_safe_big_int, add, subtract, multiply,
  apply_percentage, extract_included_percentage, multiply_by_quantity, divide_by_quantity,
}
use cullen.Shared.Money.Laws.{
  IsValid, Keeps, Within, arithmetic-Keeps, apply_percentage_bounds, divide_by_quantity_negative,
}
use cullen.Shared.Quantity.{Quantity}
use cullen.Shared.TaxRate.{apply_to, extract_from, include_in}
use cullen.Shared.TaxRate.RoundTrip.{extract_from-include_in}
use cullen.Tests.Values.{usd, dollars, sixteen_percent, iva, pieces}

pub dollars-IsValid : IsValid (dollars 999)
unfolding is_currency_code
dollars-IsValid = record { safe = refl; coded = refl }

divide_rounding_nearest_example :
    let q = divide_rounding_half_away_from_zero (negsuc 4) (pos 2) in
    (2 * (nat_abs q * 2) ≤ 2 * 5 + 2)
    × (2 * 5 < 2 * (nat_abs q * 2) + 2)
    × (pos_part q * 5 ≡ 0)
    × (neg_part q * 0 ≡ 0)
divide_rounding_nearest_example = divide_rounding_nearest (negsuc 4) 2 (omega arith)

extract_from-include_in_example :
    (t : Money) × (apply_to iva (dollars 999) ≡ ok t)
    × (add (dollars 999) t ≡ ok (dollars 1159))
    × (extract_from iva (dollars 1159) ≡ ok t)
unfolding include_in apply_to apply_percentage from_safe_big_int add from_minor_units
    is_currency_code eqb divide_rounding_half_away_from_zero ◌+ℤ◌ ◌*ℤ◌ ◌/ℤ◌ ◌%ℤ◌
extract_from-include_in_example = extract_from-include_in iva (dollars 999) (dollars 1159) refl

arithmetic-Keeps_example :
    Keeps (dollars 999) (add (dollars 999) (dollars 1))
    × Keeps (dollars 999) (subtract (dollars 999) (dollars 1))
    × Keeps (dollars 999) (multiply (dollars 999) (integer (pos 3)))
    × Keeps (dollars 999) (apply_percentage (dollars 999) sixteen_percent)
    × Keeps (dollars 999) (extract_included_percentage (dollars 999) sixteen_percent)
    × Keeps (dollars 999) (multiply_by_quantity (dollars 999) (pieces 2))
    × Keeps (dollars 999) (divide_by_quantity (dollars 999) (pieces 2))
arithmetic-Keeps_example =
    arithmetic-Keeps (dollars 999) (dollars 1) (integer (pos 3)) sixteen_percent (pieces 2)
      dollars-IsValid

apply_percentage_bounds_example :
    Within (dollars 999) (apply_percentage (dollars 999) sixteen_percent)
apply_percentage_bounds_example =
    apply_percentage_bounds (dollars 999) sixteen_percent dollars-IsValid (omega arith)
      (omega arith)

divide_by_quantity_negative_example :
    let quantity : Quantity = record { scaled_value = negsuc 1; scale = 0 } in
    (divide_by_quantity (record { minor_units = pos (2 * 2); currency = usd }) quantity
      ≡ from_safe_big_int (neg_ℕ 2 +ℤ pos 1) usd)
    × (divide_by_quantity (record { minor_units = negsuc 5; currency = usd }) quantity
        ≡ from_safe_big_int (pos 2) usd)
divide_by_quantity_negative_example = divide_by_quantity_negative 2 1 usd
