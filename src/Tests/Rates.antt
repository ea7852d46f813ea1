-- ===== src/Tests/Rates.antt =====
-- The theorems on exchange rates, applied.
use cullen.Prelude.{◌≡◌, inl, refl, none, List, [], ◌∷◌, All, arith}
use cullen.Prelude.Int.{pos, ◌+ℤ◌, ◌-ℤ◌, ◌*ℤ◌, ◌/ℤ◌, ◌%ℤ◌}
use cullen.Prelude.Text.{codes, eqb, trim, trim_start, is_space, integer}
use cullen.Shared.Errors.{quantity_invalid_scale}
use cullen.Shared.Result.{ok, err, traverse, require_text}
use cullen.Shared.Rounding.{divide_rounding_half_away_from_zero}
use cullen.Shared.Quantity.{from_scaled}
use cullen.Shared.Money.{
  Money, is_currency_code, from_minor_units, from_safe_big_int, zero_money, add,
  multiply_by_quantity,
}
use cullen.Shared.Money.Laws.{IsValid}
use cullen.Currency.ExchangeRate.{
  ExchangeRate, RateProps, create, is_valid_at, to_quantity, convert, convert_payment,
  calculate_mixed_payment_total,
}
use cullen.Currency.ExchangeRate.Conversion.{
  wide_scale_never_converts, mixed_payment_total_sound, sum_units,
}
use cullen.Tests.Values.{usd, ves, dollars, bolivars, monday, tuesday}

-- 36.5 bolivars for a dollar.
abbrev rate : ExchangeRate
rate = record {
  id = codes "r1";
  base_currency = usd;
  quote_currency = ves;
  rate_value = pos 365;
  rate_scale = 1;
  source = codes "BCV";
  valid_from = monday;
  valid_until = none;
  registered_by = codes "ana";
}

abbrev wide_props : RateProps
wide_props = record {
  id = codes "r2";
  base_currency = usd;
  quote_currency = ves;
  rate_value = integer (pos 3650000000);
  rate_scale = integer (pos 8);
  source = codes "BCV";
  valid_from = monday;
  valid_until = none;
  registered_by = codes "ana";
}

abbrev wide_rate : ExchangeRate
wide_rate = record {
  id = codes "r2";
  base_currency = usd;
  quote_currency = ves;
  rate_value = pos 3650000000;
  rate_scale = 8;
  source = codes "BCV";
  valid_from = monday;
  valid_until = none;
  registered_by = codes "ana";
}

wide_scale_never_converts_example :
    convert (dollars 100) wide_rate tuesday ≡ err quantity_invalid_scale
unfolding create require_text trim trim_start is_space eqb is_currency_code is_valid_at
wide_scale_never_converts_example =
    wide_scale_never_converts wide_props wide_rate (dollars 100) tuesday refl (omega arith) refl
      (inl refl)

mixed_payment_total_sound_example :
    (cs : List Money) × (traverse
        (convert_payment ves (rate ∷ []) tuesday)
        (dollars 100 ∷ bolivars 50 ∷ [])
      ≡ ok cs)
    × All (λ m. m.currency ≡ ves) cs
    × (pos 3700 ≡ sum_units cs)
    × (ves ≡ ves)
    × IsValid (bolivars 3700)
unfolding calculate_mixed_payment_total convert_payment zero_money add convert is_valid_at
    to_quantity from_scaled multiply_by_quantity from_safe_big_int from_minor_units is_currency_code
    eqb divide_rounding_half_away_from_zero ◌+ℤ◌ ◌-ℤ◌ ◌*ℤ◌ ◌/ℤ◌ ◌%ℤ◌
mixed_payment_total_sound_example =
    mixed_payment_total_sound (dollars 100 ∷ bolivars 50 ∷ []) ves (rate ∷ []) tuesday
      (bolivars 3700) refl
