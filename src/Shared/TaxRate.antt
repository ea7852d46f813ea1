-- ===== src/Shared/TaxRate.antt =====
-- packages/shared/src/tax-rate.ts: a rate in basis points, applied to and extracted from amounts.
pub mod RoundTrip
use cullen.Prelude.{Bool, true, false, if◌then◌else◌}
use cullen.Prelude.Int.{ℤ, pos, negsuc}
use cullen.Prelude.Text.{Number, integer, not_integer, is_safe}
use cullen.Shared.Errors.{tax_rate_invalid_basis_points}
use cullen.Shared.Result.{Result, ok, err, ◌>>=◌}
use cullen.Shared.Quantity.{Percentage, from_basis_points}
use cullen.Shared.Money.{Money, add, apply_percentage, extract_included_percentage}

pub record TaxRate : Type 0 where
  pub percentage : Percentage

-- `TaxRate.fromBasisPoints`
unfoldable pub tax_rate_from_basis_points : Number → Result TaxRate
unfolding from_basis_points
tax_rate_from_basis_points (integer (pos n)) =
    if is_safe (pos n)
    then (do
      percentage ← from_basis_points (integer (pos n))
      ok (record { percentage = percentage }))
    else err tax_rate_invalid_basis_points
tax_rate_from_basis_points (integer (negsuc n)) = err tax_rate_invalid_basis_points
tax_rate_from_basis_points not_integer = err tax_rate_invalid_basis_points

-- `TaxRate.applyTo`
unfoldable pub apply_to : TaxRate → Money → Result Money
apply_to rate money = apply_percentage money rate.percentage

-- `TaxRate.extractFrom`
unfoldable pub extract_from : TaxRate → Money → Result Money
extract_from rate money = extract_included_percentage money rate.percentage

-- `TaxRate.includeIn`
unfoldable pub include_in : TaxRate → Money → Result Money
unfolding apply_to
include_in rate money = do tax ← apply_to rate money; add money tax
