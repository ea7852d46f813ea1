-- ===== src/Sales/Sale/Methods.antt =====
-- sale.ts: the methods of `Sale` that change it.
use cullen.Prelude.{
  ℕ, ◌+◌, Bool, true, false, not, ◌||◌, Option, none, some, List, [], ◌∷◌, ◌++◌, any, find?, push,
  is_empty, if◌then◌else◌,
}
use cullen.Prelude.Int.{pos, ltb_ℤ}
use cullen.Prelude.Text.{Text, eqb, trim, Date, Number, integer, is_safe_integer, not_integer}
use cullen.Shared.Errors.{
  sale_invalid_state, sale_locked_after_payment, sale_item_already_exists,
  sale_item_currency_mismatch, sale_item_not_found, sale_discount_invalid_policy,
  sale_discount_exceeds_limit, sale_empty, sale_void_reason_required,
}
use cullen.Shared.Result.{Result, ok, err, require_text}
use cullen.Shared.Action.{Action, pure, lift, reads, gets, throw_when, modify, ◌>>=◌, ◌>>◌}
use cullen.Shared.Quantity.{Quantity}
use cullen.Shared.Money.{Money}
use cullen.Sales.Product.{ProductSnapshot}
use cullen.Sales.Item.{SaleItem, Discount, create_item, apply_discount}
use cullen.Sales.Payment.{Payment}
use cullen.Sales.Sale.State.{
  Sale, SaleStatus, draft, completed, voided, SaleRecipient, SaleEventBody, item_added,
  item_removed, discount_applied, payment_registered, sale_completed, sale_voided,
  recipient_changed, PaidWith, SoldItem,
}
use cullen.Sales.Sale.Checks.{assert_batch, assert_covered, assert_paid}
use cullen.Sales.Sale.Totals.{total, paid_total}

-- `recordEvent`
unfoldable pub record_event : SaleEventBody → Text → Date → Action Sale (Unit {0})
record_event body event_id occurred_at = modify λ s. record s {
  version = s.version + 1;
  events = push s.events (record {
    body = body;
    event_id = event_id;
    aggregate_id = s.id;
    aggregate_version = s.version + 1;
    occurred_at = occurred_at;
  });
}

abbrev pub is_draft : SaleStatus → Bool
is_draft draft = true
is_draft completed = false
is_draft voided = false

-- `assertEditable`
abbrev pub assert_editable : Action Sale (Unit {0})
assert_editable = do
  throw_when (λ s. not (is_draft s.status)) sale_invalid_state
  throw_when (λ s. not (is_empty s.payments)) sale_locked_after_payment

-- `addItem`
unfoldable pub add_item : Text → ProductSnapshot → Quantity → Date → Text → Action Sale (Unit {0})
unfolding record_event
add_item id snapshot quantity occurred_at event_id = do
  assert_editable
  throw_when (λ s. any (λ i. eqb i.id id) s.items) sale_item_already_exists
  throw_when (λ s. not (eqb snapshot.price.currency s.currency_code)) sale_item_currency_mismatch
  item ← lift (create_item id snapshot quantity)
  modify (λ s. record s { items = push s.items item })
  record_event (item_added item.id item.snapshot.product_id item.quantity) event_id occurred_at

-- `splice(findIndex(...), 1)`
abbrev pub remove_first : Text → List SaleItem → List SaleItem
remove_first id [] = []
remove_first id (i ∷ is) = if eqb i.id id then is else i ∷ remove_first id is

-- `removeItem`
unfoldable pub remove_item : Text → Date → Text → Action Sale (Unit {0})
unfolding record_event
remove_item id occurred_at event_id = do
  assert_editable
  throw_when (λ s. not (any (λ i. eqb i.id id) s.items)) sale_item_not_found
  modify (λ s. record s { items = remove_first id s.items })
  record_event (item_removed id) event_id occurred_at

-- The item that `find` gives is changed in place.
abbrev pub replace_first : Text → SaleItem → List SaleItem → List SaleItem
replace_first id new [] = []
replace_first id new (i ∷ is) = if eqb i.id id then new ∷ is else i ∷ replace_first id new is

-- `findItem`
abbrev pub find_item : Text → Sale → Result SaleItem
find_item id s = elim (find? (λ i. eqb i.id id) s.items) [
  | none ↦ err sale_item_not_found
  | some i ↦ ok i
]

abbrev exceeds : ℕ → Number → Bool
exceeds n (integer m) = ltb_ℤ m (pos n)
exceeds n not_integer = false

abbrev invalid_policy : Number → Bool
invalid_policy (integer m) =
    not (is_safe_integer (integer m)) || ltb_ℤ m (pos 0) || ltb_ℤ (pos 10000) m
invalid_policy not_integer = true

-- `applyDiscount`, with the policy's maximum.
unfoldable pub apply_item_discount : Discount → Number → Text → Action Sale Discount
unfolding record_event
apply_item_discount props maximum event_id = do
  assert_editable
  throw_when (λ s. invalid_policy maximum) sale_discount_invalid_policy
  throw_when (λ s. exceeds props.percentage.basis_points maximum) sale_discount_exceeds_limit
  item ← reads (find_item props.line_item_id)
  applied ← lift (apply_discount props item)
  modify (λ s. record s { items = replace_first props.line_item_id applied.1 s.items })
  record_event
      (discount_applied applied.0.id applied.0.line_item_id applied.0.amount
        applied.0.percentage.basis_points)
      event_id props.applied_at
  pure applied.0

abbrev pub first_or : Text → List Text → Text
first_or d [] = d
first_or d (x ∷ xs) = x

abbrev pub rest_of : List Text → List Text
rest_of [] = []
rest_of (x ∷ xs) = xs

-- One event for each payment.
unfoldable pub record_payments : List Payment → List Text → Date → Action Sale (Unit {0})
unfolding record_event
record_payments [] event_ids occurred_at = pure tt
record_payments (p ∷ ps) event_ids occurred_at = do
  record_event (payment_registered p.id p.amount_in_sale_currency p.method.code)
      (first_or [] event_ids) occurred_at
  record_payments ps (rest_of event_ids) occurred_at

-- `registerPayments`
unfoldable pub register_payments : List Payment → Money → Date → List Text → Action Sale (Unit {0})
register_payments payments tax occurred_at event_ids = do
  assert_editable
  reads (assert_batch payments tax event_ids)
  reads (assert_covered payments tax)
  modify (λ s. record s { payments = s.payments ++ payments; financial_transaction_tax = tax })
  record_payments payments event_ids occurred_at

abbrev pub is_attached : Option SaleRecipient → Bool
is_attached none = false
is_attached (some r) = true

abbrev pub country_of : Option SaleRecipient → Option Text
country_of none = none
country_of (some r) = some r.country

abbrev pub type_of : Option SaleRecipient → Option Text
type_of none = none
type_of (some r) = some r.type

-- `setRecipient`
unfoldable pub set_recipient : Option SaleRecipient → Date → Text → Action Sale (Unit {0})
unfolding record_event
set_recipient recipient occurred_at event_id = do
  throw_when (λ s. not (is_draft s.status)) sale_invalid_state
  modify (λ s. record s { recipient = recipient })
  record_event
      (recipient_changed (is_attached recipient) (country_of recipient) (type_of recipient))
      event_id occurred_at

abbrev pub paid_with : List Payment → List PaidWith
paid_with [] = []
paid_with (p ∷ ps) =
    record {
      payment_id = p.id;
      method_code = p.method.code;
      currency_code = p.amount.currency;
      amount_minor_units = p.amount.minor_units;
    }
    ∷ paid_with ps

abbrev pub sold_items : List SaleItem → List SoldItem
sold_items [] = []
sold_items (i ∷ is) =
    record {
      item_id = i.id;
      product_id = i.snapshot.product_id;
      quantity_scaled = i.quantity.scaled_value;
      quantity_scale = i.quantity.scale;
      cost_snapshot = i.snapshot.cost_snapshot;
    }
    ∷ sold_items is

-- `complete`; the totals of the event are computed after the status is assigned.
unfoldable pub complete : Date → Text → Action Sale (Unit {0})
unfolding record_event
complete completed_at event_id = do
  throw_when (λ s. not (is_draft s.status)) sale_invalid_state
  throw_when (λ s. is_empty s.items) sale_empty
  reads assert_paid
  modify (λ s. record s { status = completed; completed_at = some completed_at })
  t ← reads total
  paid ← reads paid_total
  shift_id ← gets (λ s. s.shift_id)
  terminal_id ← gets (λ s. s.terminal_id)
  payments ← gets (λ s. paid_with s.payments)
  items ← gets (λ s. sold_items s.items)
  record_event (sale_completed shift_id terminal_id t paid payments items) event_id completed_at

-- `void`
unfoldable pub void : Text → Text → Date → Text → Action Sale (Unit {0})
unfolding record_event
void reason voided_by voided_at event_id = do
  throw_when (λ s. not (is_draft s.status)) sale_invalid_state
  reason' ← lift (require_text reason sale_void_reason_required)
  modify λ s. record s {
    status = voided;
    voided_at = some voided_at;
    void_reason = some reason';
    voided_by = some (trim voided_by);
  }
  record_event (sale_voided reason' voided_by) event_id voided_at

-- The calls of the class's methods.
pub data Call : Type 0 where
  add_call : Text → ProductSnapshot → Quantity → Date → Text → Call
  remove_call : Text → Date → Text → Call
  discount_call : Discount → Number → Text → Call
  pay_call : List Payment → Money → Date → List Text → Call
  recipient_call : Option SaleRecipient → Date → Text → Call
  complete_call : Date → Text → Call
  void_call : Text → Text → Date → Text → Call

unfoldable pub run_call : Call → Action Sale (Unit {0})
run_call (add_call i p q d e) = add_item i p q d e
run_call (remove_call i d e) = remove_item i d e
run_call (discount_call p m e) = apply_item_discount p m e >> pure tt
run_call (pay_call ps t d es) = register_payments ps t d es
run_call (recipient_call r d e) = set_recipient r d e
run_call (complete_call d e) = complete d e
run_call (void_call r b d e) = void r b d e
