-- ===== src/Currency/ExchangeRate/Conversion.antt =====
-- What an exchange rate does, over any amount and any list of rates.
use cullen.Prelude.{◌≡◌, refl, subst, ap, ◌∙◌, ◌≤◌, ◌⊎◌, true, List, [], ◌∷◌, arith, All}
use cullen.Prelude.Int.{ℤ, pos, ◌+ℤ◌, int_laws}
use cullen.Prelude.Text.{Text, eqb→eq, Date, is_safe, eqb_refl, integer}
use cullen.Shared.Errors.{quantity_invalid_scale}
use cullen.Shared.Result.{ok, err, >>=-eq-ok, ok_injective, traverse}
use cullen.Shared.Quantity.{from_scaled}
use cullen.Shared.Money.{Money, add, from_minor_units, zero_money}
use cullen.Shared.Money.Laws.{IsValid, from_minor_units-IsValid, add-Keeps, Keeps}
use cullen.Currency.ExchangeRate.{
  ExchangeRate, RateProps, create, to_quantity, convert, convert_payment, is_valid_at,
  calculate_mixed_payment_total, sum_from,
}

wide_scale :
    (rate : ExchangeRate)
    → is_safe rate.rate_value ≡ true
    → 7 ≤ rate.rate_scale
    → to_quantity rate ≡ err quantity_invalid_scale
unfolding to_quantity from_scaled
wide_scale rate s h = ground arith

create-safe :
    (props : RateProps) (rate : ExchangeRate)
    → create props ≡ ok rate
    → is_safe rate.rate_value ≡ true
unfolding create
create-safe props rate h = ground arith

-- A rate may be created with a scale of 7 or 8, but no quantity has such a scale: every conversion
-- between its two currencies throws while the rate is valid.
pub wide_scale_never_converts :
    (props : RateProps) (rate : ExchangeRate) (money : Money) (at : Date)
    → create props ≡ ok rate
    → 7 ≤ rate.rate_scale
    → is_valid_at rate at ≡ true
    → (money.currency ≡ rate.base_currency) ⊎ (money.currency ≡ rate.quote_currency)
    → convert money rate at ≡ err quantity_invalid_scale
unfolding convert
wide_scale_never_converts props rate money at h k v c = ground (
  arith,
  wide_scale rate (create-safe props rate h) k,
  eqb_refl rate.base_currency,
  eqb_refl rate.quote_currency,
)

-- A conversion that does not throw used a rate that was valid at the time, went from one of its two
-- currencies to the other, and gave a valid amount.
pub convert_sound :
    (money : Money) (rate : ExchangeRate) (at : Date) (m : Money)
    → convert money rate at ≡ ok m
    → (is_valid_at rate at ≡ true)
      × (((money.currency ≡ rate.base_currency) × (m.currency ≡ rate.quote_currency))
          ⊎ ((money.currency ≡ rate.quote_currency) × (m.currency ≡ rate.base_currency)))
      × IsValid m
unfolding convert from_minor_units
convert_sound money rate at m h =
    ground
      (arith, eqb→eq money.currency rate.base_currency, eqb→eq money.currency rate.quote_currency)

abbrev pub sum_units : List Money → ℤ
sum_units [] = pos 0
sum_units (m ∷ ms) = m.minor_units +ℤ sum_units ms

-- What a sum of amounts says of the amounts.
abbrev IsSum : Money → List Money → Money → Type 0
IsSum t ms r =
    IsValid r
    × (r.currency ≡ t.currency)
    × (r.minor_units ≡ t.minor_units +ℤ sum_units ms)
    × All (λ m. m.currency ≡ t.currency) ms

add-eq-ok :
    (t m u : Money)
    → add t m ≡ ok u
    → (m.currency ≡ t.currency) × (u.minor_units ≡ t.minor_units +ℤ m.minor_units)
unfolding add from_minor_units
add-eq-ok t m u h = ground (arith, eqb→eq t.currency m.currency)

add_zero_right : (a : ℤ) → a ≡ a +ℤ pos 0
add_zero_right a = omega int_laws

regroup : (a b c d e : ℤ) → a ≡ b +ℤ c → b ≡ d +ℤ e → a ≡ d +ℤ (e +ℤ c)
regroup a b c d e h k = h ∙ ap (λ z. z +ℤ c) k ∙ omega int_laws

add_zero_left : (a : ℤ) → pos 0 +ℤ a ≡ a
add_zero_left a = omega int_laws

zero_money-eq-ok :
    (c : Text) (z : Money) → zero_money c ≡ ok z → (z.minor_units ≡ pos 0) × (z.currency ≡ c)
unfolding zero_money from_minor_units
zero_money-eq-ok c z h = ground arith

sum_from-IsSum :
    (t : Money) (ms : List Money) (r : Money) → IsValid t → sum_from t ms ≡ ok r → IsSum t ms r
sum_from-IsSum t [] r v h =
    subst (IsSum t []) (ok_injective h) (v, refl, add_zero_right t.minor_units, tt)
sum_from-IsSum t (m ∷ ms) r v h =
    let (u, e, rest) = >>=-eq-ok (add t m) (λ u. sum_from u ms) h in
    let kept : IsValid u × (u.currency ≡ t.currency) = subst (Keeps t) e (add-Keeps t m v) in
    let (valid, coded, total, all) = sum_from-IsSum u ms r kept.0 rest in
    let (same, added) = add-eq-ok t m u e in
    (
      valid,
      coded ∙ kept.1,
      regroup r.minor_units u.minor_units (sum_units ms) t.minor_units m.minor_units total added,
      (same, subst (λ c. All (λ m. m.currency ≡ c) ms) kept.1 all),
    )

-- A total of mixed payments that does not throw is the sum of the payments, each converted to the
-- target currency, and is a valid amount in that currency.
pub mixed_payment_total_sound :
    (payments : List Money) (target : Text) (rates : List ExchangeRate) (at : Date) (r : Money)
    → calculate_mixed_payment_total payments target rates at ≡ ok r
    → (cs : List Money) × (traverse (convert_payment target rates at) payments ≡ ok cs)
      × All (λ m. m.currency ≡ target) cs
      × (r.minor_units ≡ sum_units cs)
      × (r.currency ≡ target)
      × IsValid r
unfolding calculate_mixed_payment_total zero_money
mixed_payment_total_sound payments target rates at r h =
    let (cs, e, rest) = >>=-eq-ok (traverse (convert_payment target rates at) payments) _ h in
    let (z, f, total) = >>=-eq-ok (zero_money target) (λ z. sum_from z cs) rest in
    let v = from_minor_units-IsValid (integer (pos 0)) target z f in
    let (valid, coded, sum, all) = sum_from-IsSum z cs r v total in
    let (units, currency) = zero_money-eq-ok target z f in
    (
      cs,
      e,
      subst (λ c. All (λ m. m.currency ≡ c) cs) currency all,
      sum ∙ ap (λ u. u +ℤ sum_units cs) units ∙ add_zero_left (sum_units cs),
      coded ∙ currency,
      valid,
    )
