-- ===== src/Tests/Sales.antt =====
-- The theorems on sales, applied.
use cullen.Prelude.{◌≡◌, refl, false, none, some, [], ◌∷◌, is_empty, arith}
use cullen.Prelude.Int.{pos, ◌+ℤ◌, ◌-ℤ◌, ◌*ℤ◌, ◌/ℤ◌, ◌%ℤ◌}
use cullen.Prelude.Text.{codes, eqb, trim, trim_start, is_space}
use cullen.Shared.Errors.{
  sale_invalid_state, sale_locked_after_payment, sale_item_discount_already_applied,
}
use cullen.Shared.Result.{ok, err, require_text}
use cullen.Shared.Rounding.{divide_rounding_half_away_from_zero}
use cullen.Shared.Money.{
  Money, is_currency_code, from_minor_units, from_safe_big_int, zero_money, add, subtract,
  apply_percentage, multiply_by_quantity,
}
use cullen.Shared.Money.Laws.{Within}
use cullen.Shared.TaxRate.{apply_to}
use cullen.Sales.Product.{ProductSnapshot}
use cullen.Sales.Item.{
  SaleItem, Discount, create_discount, gross_amount, discount_amount, taxable_amount, tax_amount,
  apply_discount,
}
use cullen.Sales.Item.Amounts.{discount_bounds}
use cullen.Sales.Payment.{Payment}
use cullen.Sales.Sale.{
  Sale, draft, completed, sale_started, StartProps, start, sum, reduce_add, taxable_base, tax_total,
  commercial_total, total, paid_total, balance, batch_total, expected_total, assert_batch,
  assert_covered, assert_paid, record_event, record_payments, register_payments, complete, add_call,
  remove_call, void_call, run_call,
}
use cullen.Sales.Sale.Locks.{final_sale_refuses, paid_sale_locked, removes}
use cullen.Sales.Sale.Payments.{paid_sale_completes, complete-IsCovered}
use cullen.Sales.Sale.Versions.{IsVersioned, run_calls, events_numbered}
use cullen.Tests.Values.{usd, dollars, iva, pieces, cash_usd, monday, tuesday}
use cullen.Tests.Amounts.{dollars-IsValid}

abbrev coffee : ProductSnapshot
coffee = record {
  product_id = codes "p1";
  description = codes "Coffee";
  price = dollars 333;
  tax_rate = iva;
  unit_code = codes "UND";
  unit_scale = 0;
  cost_snapshot = none;
}

abbrev three_coffees : SaleItem
three_coffees = record { id = codes "i1"; snapshot = coffee; quantity = pieces 3; discount = none }

abbrev ten_percent : Discount
ten_percent = record {
  id = codes "x1";
  line_item_id = codes "i1";
  percentage = record { basis_points = 1000 };
  amount = dollars 0;
  reason = codes "regular";
  applied_by = codes "ana";
  applied_at = tuesday;
}

abbrev start_props : StartProps
start_props = record {
  id = codes "s1";
  shift_id = codes "h1";
  currency_code = usd;
  terminal_id = codes "t1";
  origin_node_id = codes "n1";
  started_by = codes "ana";
  started_at = monday;
  event_id = codes "e1";
}

abbrev unpaid_sale : Sale
unpaid_sale = record {
  id = codes "s1";
  shift_id = codes "h1";
  currency_code = usd;
  terminal_id = codes "t1";
  origin_node_id = codes "n1";
  started_by = codes "ana";
  started_at = monday;
  status = draft;
  version = 2;
  items = three_coffees ∷ [];
  payments = [];
  financial_transaction_tax = dollars 0;
  completed_at = none;
  voided_at = none;
  void_reason = none;
  voided_by = none;
  recipient = none;
  events = [];
}

-- 999 for the coffees and 160 for the tax on them.
abbrev payment : Payment
payment = record {
  id = codes "y1";
  method = cash_usd;
  amount = dollars 1159;
  amount_in_sale_currency = dollars 1159;
  exchange_rate = none;
  registered_by = codes "ana";
  registered_at = tuesday;
}

abbrev paid_sale : Sale
paid_sale = record unpaid_sale { payments = payment ∷ [] }

abbrev completed_sale : Sale
completed_sale = record paid_sale { status = completed }

discount_bounds_example :
    Within (dollars 999) (ok (dollars 100))
    × Within (dollars 999) (
        taxable_amount
          (record three_coffees { discount = some (record ten_percent { amount = dollars 100 }) }))
    × (apply_discount ten_percent
          (record three_coffees { discount = some (record ten_percent { amount = dollars 100 }) })
        ≡ err sale_item_discount_already_applied)
unfolding apply_discount create_discount gross_amount multiply_by_quantity apply_percentage
    from_safe_big_int divide_rounding_half_away_from_zero require_text trim trim_start is_space ◌+ℤ◌
    ◌*ℤ◌ ◌/ℤ◌ ◌%ℤ◌
discount_bounds_example =
    discount_bounds ten_percent ten_percent three_coffees (dollars 999)
      (
        record ten_percent { amount = dollars 100 },
        record three_coffees { discount = some (record ten_percent { amount = dollars 100 }) },
      )
      refl dollars-IsValid (omega arith) refl

final_sale_refuses_example :
    run_call (void_call (codes "mistake") (codes "ana") tuesday (codes "e9")) completed_sale
    ≡ (err sale_invalid_state, completed_sale)
final_sale_refuses_example =
    final_sale_refuses (void_call (codes "mistake") (codes "ana") tuesday (codes "e9"))
      completed_sale (λ e. cc)

paid_sale_locked_example :
    run_call (remove_call (codes "i1") tuesday (codes "e9")) paid_sale
    ≡ (err sale_locked_after_payment, paid_sale)
paid_sale_locked_example =
    paid_sale_locked (remove_call (codes "i1") tuesday (codes "e9")) paid_sale
      (removes (codes "i1") tuesday (codes "e9")) refl refl

abbrev after_payment : Sale
after_payment =
    (register_payments (payment ∷ []) (dollars 0) tuesday (codes "e2" ∷ []) unpaid_sale).1

paid_sale_completes_example :
    (after_payment.status ≡ draft)
    × ((t : Money) × (total after_payment ≡ ok t) × (paid_total after_payment ≡ ok t))
    × ((complete tuesday (codes "e3") after_payment).0 ≡ ok tt)
unfolding register_payments assert_batch assert_covered batch_total expected_total reduce_add
    commercial_total taxable_base tax_total sum taxable_amount tax_amount gross_amount
    discount_amount apply_to multiply_by_quantity apply_percentage from_safe_big_int
    divide_rounding_half_away_from_zero zero_money add subtract from_minor_units is_currency_code
    eqb record_payments record_event ◌+ℤ◌ ◌-ℤ◌ ◌*ℤ◌ ◌/ℤ◌ ◌%ℤ◌
paid_sale_completes_example =
    paid_sale_completes (payment ∷ []) (dollars 0) tuesday (codes "e2" ∷ []) unpaid_sale
      after_payment refl tuesday (codes "e3")

complete-IsCovered_example :
    (draft ≡ draft)
    × (is_empty (three_coffees ∷ []) ≡ false)
    × (is_empty (payment ∷ []) ≡ false)
    × ((b : Money) × (balance paid_sale ≡ ok b) × (b.minor_units ≡ pos 0))
unfolding complete assert_paid balance total paid_total reduce_add commercial_total taxable_base
    tax_total sum taxable_amount tax_amount gross_amount discount_amount apply_to
    multiply_by_quantity apply_percentage from_safe_big_int divide_rounding_half_away_from_zero
    zero_money add subtract from_minor_units is_currency_code eqb record_event ◌+ℤ◌ ◌-ℤ◌ ◌*ℤ◌ ◌/ℤ◌
    ◌%ℤ◌
complete-IsCovered_example =
    complete-IsCovered paid_sale (complete tuesday (codes "e3") paid_sale).1 tuesday (codes "e3")
      refl

abbrev new_sale : Sale
new_sale = record unpaid_sale {
  version = 1;
  items = [];
  events =
      record {
        body = sale_started (codes "h1") usd (codes "t1") (codes "n1");
        event_id = codes "e1";
        aggregate_id = codes "s1";
        aggregate_version = 1;
        occurred_at = monday;
      }
      ∷ [];
}

events_numbered_example :
    IsVersioned
      (run_calls (add_call (codes "i1") coffee (pieces 3) tuesday (codes "e2") ∷ []) new_sale)
unfolding start require_text trim trim_start is_space zero_money from_minor_units is_currency_code
events_numbered_example =
    events_numbered start_props new_sale
      (add_call (codes "i1") coffee (pieces 3) tuesday (codes "e2") ∷ []) refl
