-- ===== src/Fiscal/Content/Totals.antt =====
-- What a document whose content was accepted says of money.
use cullen.Prelude.{◌≡◌, true, All, arith}
use cullen.Prelude.Int.{ℤ, pos, ◌≤ℤ◌, eqb_ℤ→eq}
use cullen.Prelude.Text.{Text, trim, Number, integer, not_integer}
use cullen.Shared.Result.{ok, for_each-All}
use cullen.Fiscal.Content.{
  Content, Line, DocumentPayment, integer_value, is_safe_from, check_line, check_payment,
  line_total, payment_total, validate_content, is_fiscal_currency,
}

-- Each payment is at least one minor unit, each line at least zero.
abbrev pub IsPaid : DocumentPayment → Type 0
IsPaid p = pos 1 ≤ℤ integer_value p.amount_minor_units

abbrev pub IsPriced : Line → Type 0
IsPriced l = pos 0 ≤ℤ integer_value l.total_minor_units

safe_from_le : (low : ℤ) (n : Number) → is_safe_from low n ≡ true → low ≤ℤ integer_value n
safe_from_le low (integer z) h = ground arith
safe_from_le low not_integer h = cc

check_payment-IsPaid : (p : DocumentPayment) → check_payment p ≡ ok tt → IsPaid p
check_payment-IsPaid p h = ground (arith, safe_from_le (pos 1) p.amount_minor_units)

check_line-IsPriced : (l : Line) → check_line l ≡ ok tt → IsPriced l
check_line-IsPriced l h = ground (arith, safe_from_le (pos 0) l.total_minor_units)

-- What an accepted document promises of its amounts.
pub record IsBalanced (c : Content) : Type 0 where
  pub lines_agree : line_total c.lines (pos 0) ≡ integer_value c.total_minor_units
  pub payments_agree : payment_total c.payments (pos 0) ≡ integer_value c.total_minor_units
  pub positive : pos 1 ≤ℤ integer_value c.total_minor_units
  pub priced : All IsPriced c.lines
  pub paid : All IsPaid c.payments

module _ (to_upper : Text → Text) where
  -- Content that is accepted is balanced, with any mapping to upper case: the lines add up to the total,
  -- which is positive, and so do the payments; no line is negative and every payment is positive.
  -- Nothing of it is changed but the currency code, which then has the form of one.
  pub validate_content-IsBalanced :
      (c d : Content)
      → validate_content to_upper c ≡ ok d
      → IsBalanced d
        × (d ≡ record c { currency_code = to_upper (trim c.currency_code) })
        × (is_fiscal_currency d.currency_code ≡ true)
  unfolding validate_content
  validate_content-IsBalanced c d h =
      let lines = for_each-All IsPriced check_line check_line-IsPriced c.lines in
      let payments = for_each-All IsPaid check_payment check_payment-IsPaid c.payments in
      ground (
        arith,
        lines,
        payments,
        safe_from_le (pos 1) c.total_minor_units,
        eqb_ℤ→eq (line_total c.lines (pos 0)) (integer_value c.total_minor_units),
        eqb_ℤ→eq (payment_total c.payments (pos 0)) (integer_value c.total_minor_units),
      )
