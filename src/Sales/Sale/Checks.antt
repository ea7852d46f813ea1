-- ===== src/Sales/Sale/Checks.antt =====
-- sale.ts: what `registerPayments` and `complete` check before they change the sale.
use cullen.Prelude.{not, ◌||◌, List, is_empty, length, ◌==◌, if◌then◌else◌}
use cullen.Prelude.Int.{pos, ltb_ℤ, eqb_ℤ}
use cullen.Prelude.Text.{Text, eqb}
use cullen.Shared.Errors.{
  sale_empty, sale_payments_already_registered, sale_payment_batch_invalid, sale_invalid_igtf,
  sale_payment_total_mismatch, sale_payment_insufficient, sale_currency_mismatch,
}
use cullen.Shared.Result.{Result, ok, err, throw_if, ◌>>=◌, ◌>>◌}
use cullen.Shared.Money.{Money, zero_money, add}
use cullen.Sales.Payment.{Payment}
use cullen.Sales.Sale.State.{Sale}
use cullen.Sales.Sale.Totals.{commercial_total, balance, reduce_add}

-- `registerPayments`: the checks of the batch itself.
unfoldable pub assert_batch : List Payment → Money → List Text → Sale → Result (Unit {0})
assert_batch payments tax event_ids s = do
  throw_if (is_empty s.items) sale_empty
  throw_if (not (is_empty s.payments)) sale_payments_already_registered
  throw_if (is_empty payments || not (length event_ids == length payments))
      sale_payment_batch_invalid
  throw_if (not (eqb tax.currency s.currency_code)) sale_currency_mismatch
  throw_if (ltb_ℤ tax.minor_units (pos 0)) sale_invalid_igtf

-- The amount of a payment, which must be in the sale's currency.
abbrev pub payment_amount : Text → Payment → Result Money
payment_amount currency p =
    if eqb p.amount_in_sale_currency.currency currency
    then ok p.amount_in_sale_currency
    else err sale_currency_mismatch

unfoldable pub batch_total : List Payment → Sale → Result Money
batch_total payments s = elim (zero_money s.currency_code) [
  | ok zero ↦ reduce_add (payment_amount s.currency_code) zero payments
  | err e ↦ err e
]

unfoldable pub expected_total : Money → Sale → Result Money
expected_total tax s = elim (commercial_total s) [ ok c ↦ add c tax | err e ↦ err e ]

-- `registerPayments`: the payments must add up to the total with the tax.
unfoldable pub assert_covered : List Payment → Money → Sale → Result (Unit {0})
assert_covered payments tax s = do
  payment_total ← batch_total payments s
  expected ← expected_total tax s
  throw_if (not (eqb_ℤ payment_total.minor_units expected.minor_units)) sale_payment_total_mismatch

-- `currentPayments.length === 0 || balance.minorUnits !== 0`, where the balance is computed only if
-- there are payments.
unfoldable pub assert_paid : Sale → Result (Unit {0})
assert_paid s = if is_empty s.payments then err sale_payment_insufficient else elim (balance s) [
  | ok b ↦ if eqb_ℤ b.minor_units (pos 0) then ok tt else err sale_payment_insufficient
  | err e ↦ err e
]
