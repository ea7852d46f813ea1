-- ===== src/Sales/Sale/Versions.antt =====
-- The version of a sale counts its events.
use cullen.Prelude.{
  ℕ, inl, inr, ◌++◌, Option, some, ◌+◌, ◌≡◌, refl, sym, subst, ap, ◌∙◌, List, [], ◌∷◌, length,
  length-push, push, arith,
}
use cullen.Prelude.Text.{Text, trim, Date, Number}
use cullen.Shared.Result.{ok, Result-cases, require_text, >>=-eq-ok, ok_injective}
use cullen.Shared.Errors.{sale_void_reason_required, sale_shift_required}
use cullen.Shared.Action.{pure}
use cullen.Sales.Product.{ProductSnapshot}
use cullen.Shared.Quantity.{Quantity}
use cullen.Sales.Payment.{Payment}
use cullen.Sales.Sale.State.{
  Sale, SaleEvent, completed, voided, SaleEventBody, item_removed, item_added, discount_applied,
  payment_registered, sale_completed, sale_voided, recipient_changed, SaleRecipient,
}
use cullen.Sales.Item.{Discount, create_item, apply_discount}
use cullen.Shared.Money.{Money, zero_money}
use cullen.Sales.Sale.Totals.{total, paid_total}
use cullen.Shared.Action.Preserves.{Preserves, bind-Preserves}
use cullen.Sales.Sale.Start.{StartProps, start}
use cullen.Sales.Sale.Checks.{assert_paid}
use cullen.Sales.Sale.Methods.{
  Call, add_call, remove_call, discount_call, pay_call, recipient_call, complete_call, void_call,
  run_call, add_item, remove_item, apply_item_discount, register_payments, set_recipient, complete,
  void, remove_first, first_or, rest_of, paid_with, sold_items, find_item, replace_first,
  is_attached, country_of, type_of, record_payments, record_event,
}

-- The versions of the events are consecutive.
abbrev pub Numbered : ℕ → List SaleEvent → Type 0
Numbered n [] = Unit {0}
Numbered n (e ∷ es) = (e.aggregate_version ≡ n + 1) × Numbered (n + 1) es

pub record IsVersioned (s : Sale) : Type 0 where
  pub counted : length s.events ≡ s.version
  pub numbered : Numbered 0 s.events

Numbered-push :
    (n : ℕ) (es : List SaleEvent) (e : SaleEvent)
    → Numbered n es
    → e.aggregate_version ≡ n + length es + 1
    → Numbered n (push es e)
Numbered-push n [] e h g = (omega (arith, g), tt)
Numbered-push n (x ∷ es) e h g = (h.0, Numbered-push (n + 1) es e h.1 (omega (arith, g)))

abbrev new_event : SaleEventBody → Text → Date → Sale → SaleEvent
new_event b i d s = record {
  body = b;
  event_id = i;
  aggregate_id = s.id;
  aggregate_version = s.version + 1;
  occurred_at = d;
}

record_event-IsVersioned :
    (b : SaleEventBody) (i : Text) (d : Date) → Preserves IsVersioned (record_event b i d)
unfolding record_event
record_event-IsVersioned b i d s v = record {
  counted = omega (arith, v.counted, length-push s.events (new_event b i d s));
  numbered = Numbered-push 0 s.events (new_event b i d s) v.numbered (omega (arith, v.counted));
}

-- An event recorded after other fields have changed.
record_after-IsVersioned :
    (s s' : Sale)
    → IsVersioned s
    → s'.events ≡ s.events
    → s'.version ≡ s.version
    → (b : SaleEventBody) (i : Text) (d : Date) → IsVersioned (record_event b i d s').1
record_after-IsVersioned s s' v e g b i d = record_event-IsVersioned b i d s' (record {
  counted = ap length e ∙ v.counted ∙ sym g;
  numbered = subst (λ es. Numbered 0 es) (sym e) v.numbered;
})

remove_item-IsVersioned :
    (i : Text) (d : Date) (e : Text) → Preserves IsVersioned (remove_item i d e)
unfolding remove_item
remove_item-IsVersioned i d e s v = ground (
  arith,
  v,
  record_after-IsVersioned s (record s { items = remove_first i s.items }) v refl refl
      (item_removed i) e d,
)

same-IsVersioned :
    (s s' : Sale) → IsVersioned s → s'.events ≡ s.events → s'.version ≡ s.version → IsVersioned s'
same-IsVersioned s s' v e g = record {
  counted = ap length e ∙ v.counted ∙ sym g;
  numbered = subst (λ es. Numbered 0 es) (sym e) v.numbered;
}

add_item-IsVersioned :
    (i : Text) (p : ProductSnapshot) (q : Quantity) (d : Date) (e : Text)
    → Preserves IsVersioned (add_item i p q d e)
unfolding add_item
add_item-IsVersioned i p q d e s v = elim (Result-cases (create_item i p q)) [
  | inl (item, h) ↦ ground (
    arith,
    v,
    h,
    record_after-IsVersioned s (record s { items = push s.items item }) v refl refl
        (item_added item.id item.snapshot.product_id item.quantity) e d,
  )
  | inr (x, h) ↦ ground (arith, v, h)
]

apply_item_discount-IsVersioned :
    (p : Discount) (m : Number) (e : Text) → Preserves IsVersioned (apply_item_discount p m e)
unfolding apply_item_discount
apply_item_discount-IsVersioned p m e s v = elim (Result-cases (find_item p.line_item_id s)) [
  | inl (item, h) ↦ elim (Result-cases (apply_discount p item)) [
    | inl (a, g) ↦ ground (
      arith,
      v,
      h,
      g,
      record_after-IsVersioned s (record s { items = replace_first p.line_item_id a.1 s.items }) v
          refl refl
          (discount_applied a.0.id a.0.line_item_id a.0.amount a.0.percentage.basis_points) e
          p.applied_at,
    )
    | inr (x, g) ↦ ground (arith, v, h, g)
  ]
  | inr (x, h) ↦ ground (arith, v, h)
]

record_payments-IsVersioned :
    (ps : List Payment) (es : List Text) (d : Date)
    → Preserves IsVersioned (record_payments ps es d)
unfolding record_payments
record_payments-IsVersioned [] es d s v = v
record_payments-IsVersioned (p ∷ ps) es d s v =
    record_payments-IsVersioned ps (rest_of es) d
      (record_event (payment_registered p.id p.amount_in_sale_currency p.method.code)
        (first_or [] es) d s).1
      (record_event-IsVersioned (payment_registered p.id p.amount_in_sale_currency p.method.code)
        (first_or [] es) d s v)

register_payments-IsVersioned :
    (ps : List Payment) (t : Money) (d : Date) (es : List Text)
    → Preserves IsVersioned (register_payments ps t d es)
unfolding register_payments
register_payments-IsVersioned ps t d es s v = ground (
  arith,
  v,
  record_payments-IsVersioned ps es d
      (record s { payments = s.payments ++ ps; financial_transaction_tax = t })
      (same-IsVersioned s (record s { payments = s.payments ++ ps; financial_transaction_tax = t })
        v refl refl),
)

set_recipient-IsVersioned :
    (r : Option SaleRecipient) (d : Date) (e : Text) → Preserves IsVersioned (set_recipient r d e)
unfolding set_recipient
set_recipient-IsVersioned r d e s v = ground (
  arith,
  v,
  record_after-IsVersioned s (record s { recipient = r }) v refl refl
      (recipient_changed (is_attached r) (country_of r) (type_of r)) e d,
)

complete-IsVersioned : (d : Date) (e : Text) → Preserves IsVersioned (complete d e)
unfolding complete
complete-IsVersioned d e s v =
    let c : Sale = record s { status = completed; completed_at = some d } in
    let k : IsVersioned c = same-IsVersioned s c v refl refl in
    elim (Result-cases (assert_paid s)) [
      | inl (u, f) ↦ elim (Result-cases (total c)) [
        | inl (t, h) ↦ elim (Result-cases (paid_total c)) [
          | inl (p, g) ↦ ground (
            arith,
            v,
            k,
            f,
            h,
            g,
            record_after-IsVersioned s c v refl refl
                (sale_completed s.shift_id s.terminal_id t p (paid_with s.payments)
                  (sold_items s.items))
                e d,
          )
          | inr (x, g) ↦ ground (arith, v, k, f, h, g)
        ]
        | inr (x, h) ↦ ground (arith, v, k, f, h)
      ]
      | inr (x, f) ↦ ground (arith, v, f)
    ]

void-IsVersioned : (r b : Text) (d : Date) (e : Text) → Preserves IsVersioned (void r b d e)
unfolding void
void-IsVersioned r b d e s v = elim (Result-cases (require_text r sale_void_reason_required)) [
  | inl (t, h) ↦ ground (
    arith,
    v,
    h,
    record_after-IsVersioned s
        (record s {
          status = voided;
          voided_at = some d;
          void_reason = some t;
          voided_by = some (trim b);
        })
        v refl refl (sale_voided t b) e d,
  )
  | inr (x, h) ↦ ground (arith, v, h)
]

-- Every method keeps the numbering of the events, whatever its arguments, and when it throws too.
pub run_call-IsVersioned : (c : Call) → Preserves IsVersioned (run_call c)
unfolding run_call
run_call-IsVersioned (add_call i p q d e) = add_item-IsVersioned i p q d e
run_call-IsVersioned (remove_call i d e) = remove_item-IsVersioned i d e
run_call-IsVersioned (discount_call p m e) =
    bind-Preserves IsVersioned (apply_item_discount p m e) (λ _. pure tt)
      (apply_item_discount-IsVersioned p m e) (λ _ s v. v)
run_call-IsVersioned (pay_call ps t d es) = register_payments-IsVersioned ps t d es
run_call-IsVersioned (recipient_call r d e) = set_recipient-IsVersioned r d e
run_call-IsVersioned (complete_call d e) = complete-IsVersioned d e
run_call-IsVersioned (void_call r b d e) = void-IsVersioned r b d e

-- The sale after a sequence of calls, successful or not.
abbrev pub run_calls : List Call → Sale → Sale
run_calls [] s = s
run_calls (c ∷ cs) s = run_calls cs (run_call c s).1

run_calls-IsVersioned : (cs : List Call) (s : Sale) → IsVersioned s → IsVersioned (run_calls cs s)
run_calls-IsVersioned [] s v = v
run_calls-IsVersioned (c ∷ cs) s v =
    run_calls-IsVersioned cs (run_call c s).1 (run_call-IsVersioned c s v)

start-IsVersioned : (p : StartProps) (s : Sale) → start p ≡ ok s → IsVersioned s
unfolding start
start-IsVersioned p s h =
    let (shift, _, h1) = >>=-eq-ok (require_text p.shift_id sale_shift_required) _ h in
    let (zero, _, h2) = >>=-eq-ok (zero_money p.currency_code) _ h1 in
    subst IsVersioned (ok_injective h2) (record { counted = refl; numbered = (refl, tt) })

-- Whatever is called on a new sale, its version is the number of its events, and their versions are 1,
-- 2 and so on without a gap.
pub events_numbered :
    (p : StartProps) (s : Sale) (cs : List Call) → start p ≡ ok s → IsVersioned (run_calls cs s)
events_numbered p s cs h = run_calls-IsVersioned cs s (start-IsVersioned p s h)
