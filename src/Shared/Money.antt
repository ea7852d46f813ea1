-- ===== src/Shared/Money.antt =====
-- packages/shared/src/money.ts: amounts in minor units of a currency.
pub mod Laws
use cullen.Prelude.{
  ℕ, zero, suc, ◌+◌, ◌*◌, ◌^◌, ◌≡◌, Bool, true, false, not, ◌||◌, ◌&&◌, leb, ltb, ◌==◌, [], ◌∷◌,
  if◌then◌else◌,
}
use cullen.Prelude.Int.{ℤ, pos, negsuc, ◌+ℤ◌, ◌-ℤ◌, ◌*ℤ◌, eqb_ℤ}
use cullen.Prelude.Text.{Text, eqb, Number, integer, not_integer, is_safe}
use cullen.Shared.Errors.{
  money_invalid_amount, money_invalid_currency, money_invalid_factor, money_overflow,
  money_currency_mismatch, money_division_by_zero,
}
use cullen.Shared.Result.{Result, ok, err, ◌>>=◌, ◌>>◌, throw_if}
use cullen.Shared.Rounding.{divide_rounding_half_away_from_zero}
use cullen.Shared.Quantity.{Quantity, Percentage}

abbrev pub basis_points_denominator : ℕ
basis_points_denominator = 10000

pub record Money : Type 0 where
  pub minor_units : ℤ
  pub currency : Text

abbrev is_upper : ℕ → Bool
is_upper c = leb b'A' c && leb c b'Z'

-- `CURRENCY_CODE_PATTERN`, /^[A-Z]{3}$/
unfoldable pub is_currency_code : Text → Bool
is_currency_code [] = false
is_currency_code (a ∷ []) = false
is_currency_code (a ∷ b ∷ []) = false
is_currency_code (a ∷ b ∷ c ∷ []) = is_upper a && is_upper b && is_upper c
is_currency_code (a ∷ b ∷ c ∷ d ∷ s) = false

-- `Money.fromMinorUnits`
unfoldable pub from_minor_units : Number → Text → Result Money
from_minor_units (integer units) currency =
    if is_safe units
    then (if is_currency_code currency
        then ok (record { minor_units = units; currency = currency })
        else err money_invalid_currency)
    else err money_invalid_amount
from_minor_units not_integer currency = err money_invalid_amount

-- `Money.zero`
unfoldable pub zero_money : Text → Result Money
unfolding from_minor_units
zero_money currency = from_minor_units (integer (pos 0)) currency

-- `assertSameCurrency`
abbrev pub assert_same_currency : Money → Money → Result (Unit {0})
assert_same_currency m other =
    throw_if (not (eqb m.currency other.currency)) money_currency_mismatch

-- `Money.fromSafeBigInt`, which does not check the currency again
unfoldable pub from_safe_big_int : ℤ → Text → Result Money
from_safe_big_int units currency =
    if is_safe units
    then ok (record { minor_units = units; currency = currency })
    else err money_overflow

-- `Money.add`
unfoldable pub add : Money → Money → Result Money
unfolding from_minor_units
add m other = do
  assert_same_currency m other
  from_minor_units (integer (m.minor_units +ℤ other.minor_units)) m.currency

-- `Money.subtract`
unfoldable pub subtract : Money → Money → Result Money
unfolding from_minor_units
subtract m other = do
  assert_same_currency m other
  from_minor_units (integer (m.minor_units -ℤ other.minor_units)) m.currency

-- `Money.multiply`
unfoldable pub multiply : Money → Number → Result Money
unfolding from_safe_big_int
multiply m (integer factor) =
    if is_safe factor
    then from_safe_big_int (m.minor_units *ℤ factor) m.currency
    else err money_invalid_factor
multiply m not_integer = err money_invalid_factor

-- `Money.applyPercentage`
unfoldable pub apply_percentage : Money → Percentage → Result Money
unfolding from_safe_big_int
apply_percentage m percentage =
    from_safe_big_int
      (divide_rounding_half_away_from_zero (m.minor_units *ℤ pos percentage.basis_points)
        (pos basis_points_denominator))
      m.currency

-- `Money.extractIncludedPercentage`
unfoldable pub extract_included_percentage : Money → Percentage → Result Money
unfolding from_safe_big_int
extract_included_percentage m percentage =
    let denominator = pos (basis_points_denominator + percentage.basis_points) in
    let base =
      divide_rounding_half_away_from_zero (m.minor_units *ℤ pos basis_points_denominator)
        denominator in
    from_safe_big_int (m.minor_units -ℤ base) m.currency

-- `Money.multiplyByQuantity`
unfoldable pub multiply_by_quantity : Money → Quantity → Result Money
unfolding from_safe_big_int
multiply_by_quantity m quantity =
    from_safe_big_int
      (divide_rounding_half_away_from_zero (m.minor_units *ℤ quantity.scaled_value)
        (pos (10 ^ quantity.scale)))
      m.currency

-- `Money.divideByQuantity`
unfoldable pub divide_by_quantity : Money → Quantity → Result Money
unfolding from_safe_big_int
divide_by_quantity m quantity =
    if eqb_ℤ quantity.scaled_value (pos 0)
    then err money_division_by_zero
    else from_safe_big_int
        (divide_rounding_half_away_from_zero (m.minor_units *ℤ pos (10 ^ quantity.scale))
          quantity.scaled_value)
        m.currency

-- `Money.isZero`
unfoldable pub is_zero : Money → Bool
is_zero m = eqb_ℤ m.minor_units (pos 0)
