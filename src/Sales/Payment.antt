-- ===== src/Sales/Payment.antt =====
-- packages/core/src/domain/sales/payment.ts.
use cullen.Prelude.{not, Option}
use cullen.Prelude.Int.{pos, leb_ℤ}
use cullen.Prelude.Text.{Text, eqb, Date}
use cullen.Shared.Errors.{
  sale_payment_invalid_amount, sale_payment_method_inactive, sale_payment_method_currency_mismatch,
  sale_payment_invalid_converted_amount,
}
use cullen.Shared.Result.{Result, ok, ◌>>◌, throw_if}
use cullen.Shared.Money.{Money}
use cullen.Currency.PaymentMethod.{PaymentMethod}
use cullen.Currency.ExchangeRate.{ExchangeRate}

-- `Payment` and `PaymentProps`, which have the same fields.
pub record Payment : Type 0 where
  pub id : Text
  pub method : PaymentMethod
  pub amount : Money
  pub amount_in_sale_currency : Money
  pub exchange_rate : Option ExchangeRate
  pub registered_by : Text
  pub registered_at : Date

-- `Payment.create`
unfoldable pub create_payment : Payment → Result Payment
create_payment props = do
  throw_if (leb_ℤ props.amount.minor_units (pos 0)) sale_payment_invalid_amount
  throw_if (not props.method.is_active) sale_payment_method_inactive
  throw_if (not (eqb props.amount.currency props.method.currency_code))
      sale_payment_method_currency_mismatch
  throw_if (leb_ℤ props.amount_in_sale_currency.minor_units (pos 0))
      sale_payment_invalid_converted_amount
  ok props
