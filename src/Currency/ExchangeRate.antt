-- ===== src/Currency/ExchangeRate.antt =====
-- packages/core/src/domain/currency/exchange-rate.ts, currency-converter.ts and mixed-payment.ts.
pub mod Conversion
use cullen.Prelude.{
  ℕ, Bool, true, false, not, ◌&&◌, ◌||◌, Option, none, some, List, [], ◌∷◌, find?, if◌then◌else◌,
}
use cullen.Prelude.Int.{ℤ, pos, negsuc, leb_ℤ, ltb_ℤ}
use cullen.Prelude.Text.{
  Text, eqb, trim, Date, invalid_date, instant, Number, integer, not_integer, is_safe_integer,
  is_safe, date_lt,
}
use cullen.Shared.Errors.{
  exchange_rate_invalid_currency, exchange_rate_invalid_pair, exchange_rate_invalid_value,
  exchange_rate_invalid_scale, exchange_rate_source_required, exchange_rate_invalid_validity,
  currency_rate_expired, currency_rate_mismatch, currency_rate_missing,
}
use cullen.Shared.Result.{Result, ok, err, ◌>>=◌, ◌>>◌, throw_if, require_text, traverse}
use cullen.Shared.Quantity.{Quantity, from_scaled}
use cullen.Shared.Money.{
  Money, is_currency_code, from_minor_units, multiply_by_quantity, divide_by_quantity, zero_money,
  add,
}

pub record ExchangeRate : Type 0 where
  pub id : Text
  pub base_currency : Text
  pub quote_currency : Text
  pub rate_value : ℤ
  pub rate_scale : ℕ
  pub source : Text
  pub valid_from : Date
  pub valid_until : Option Date
  pub registered_by : Text

-- `left <= right` on dates, false when one of them is `NaN`
abbrev date_le : Date → Date → Bool
date_le (instant a) (instant b) = leb_ℤ a b
date_le (instant a) invalid_date = false
date_le invalid_date d = false

-- `ExchangeRateProps`
pub record RateProps : Type 0 where
  pub id : Text
  pub base_currency : Text
  pub quote_currency : Text
  pub rate_value : Number
  pub rate_scale : Number
  pub source : Text
  pub valid_from : Date
  pub valid_until : Option Date
  pub registered_by : Text

abbrev positive_value : Number → Result ℤ
positive_value (integer v) =
    if is_safe v && ltb_ℤ (pos 0) v then ok v else err exchange_rate_invalid_value
positive_value not_integer = err exchange_rate_invalid_value

abbrev scale_upto_eight : Number → Result ℕ
scale_upto_eight (integer (pos s)) =
    if leb_ℤ (pos s) (pos 8) then ok s else err exchange_rate_invalid_scale
scale_upto_eight (integer (negsuc s)) = err exchange_rate_invalid_scale
scale_upto_eight not_integer = err exchange_rate_invalid_scale

abbrev ends_early : Option Date → Date → Bool
ends_early none start = false
ends_early (some stop) start = date_le stop start

-- `ExchangeRate.create`
unfoldable pub create : RateProps → Result ExchangeRate
create props = do
  throw_if
      (not (is_currency_code props.base_currency) || not (is_currency_code props.quote_currency))
      exchange_rate_invalid_currency
  throw_if (eqb props.base_currency props.quote_currency) exchange_rate_invalid_pair
  rate_value ← positive_value props.rate_value
  rate_scale ← scale_upto_eight props.rate_scale
  source ← require_text props.source exchange_rate_source_required
  throw_if (ends_early props.valid_until props.valid_from) exchange_rate_invalid_validity
  ok (record {
    id = props.id;
    base_currency = props.base_currency;
    quote_currency = props.quote_currency;
    rate_value = rate_value;
    rate_scale = rate_scale;
    source = source;
    valid_from = props.valid_from;
    valid_until = props.valid_until;
    registered_by = props.registered_by;
  })

abbrev before_end : Date → Option Date → Bool
before_end at none = true
before_end at (some stop) = date_lt at stop

-- `isValidAt`
unfoldable pub is_valid_at : ExchangeRate → Date → Bool
is_valid_at rate at = date_le rate.valid_from at && before_end at rate.valid_until

-- `toQuantity`
unfoldable pub to_quantity : ExchangeRate → Result Quantity
to_quantity rate = from_scaled (integer rate.rate_value) (integer (pos rate.rate_scale))

abbrev to_quote : Money → ExchangeRate → Result Money
to_quote money rate = do
  quantity ← to_quantity rate
  converted ← multiply_by_quantity money quantity
  from_minor_units (integer converted.minor_units) rate.quote_currency

abbrev to_base : Money → ExchangeRate → Result Money
to_base money rate = do
  quantity ← to_quantity rate
  converted ← divide_by_quantity money quantity
  from_minor_units (integer converted.minor_units) rate.base_currency

-- `CurrencyConverter.convert`
unfoldable pub convert : Money → ExchangeRate → Date → Result Money
unfolding to_quantity is_valid_at
convert money rate at = do
  throw_if (not (is_valid_at rate at)) currency_rate_expired
  if eqb money.currency rate.base_currency
      then to_quote money rate
      else if eqb money.currency rate.quote_currency
      then to_base money rate
      else err currency_rate_mismatch

abbrev applies : Text → Text → ExchangeRate → Bool
applies from target r =
    (eqb r.base_currency from && eqb r.quote_currency target)
    || (eqb r.base_currency target && eqb r.quote_currency from)

-- One payment in the target currency.
unfoldable pub convert_payment : Text → List ExchangeRate → Date → Money → Result Money
convert_payment target rates at payment =
    if eqb payment.currency target
    then ok payment
    else elim (find? (applies payment.currency target) rates) [
      | none ↦ err currency_rate_missing
      | some rate ↦ convert payment rate at
    ]

abbrev sum_from : Money → List Money → Result Money
sum_from total [] = ok total
sum_from total (m ∷ ms) = do total' ← add total m; sum_from total' ms

-- `calculateMixedPaymentTotal`
unfoldable pub calculate_mixed_payment_total :
    List Money → Text → List ExchangeRate → Date → Result Money
calculate_mixed_payment_total payments target rates at = do
  converted ← traverse (convert_payment target rates at) payments
  zero ← zero_money target
  sum_from zero converted
