-- ===== src/Sales/Sale/Locks.antt =====
-- What a sale refuses once it is completed or voided, and once it is paid.
use cullen.Prelude.{◌≡◌, ◌≢◌, refl, false, List, is_empty, arith}
use cullen.Prelude.Text.{Text, Date, Number}
use cullen.Shared.Errors.{sale_invalid_state, sale_locked_after_payment}
use cullen.Shared.Result.{err}
use cullen.Shared.Quantity.{Quantity}
use cullen.Shared.Money.{Money}
use cullen.Sales.Product.{ProductSnapshot}
use cullen.Sales.Item.{Discount}
use cullen.Sales.Payment.{Payment}
use cullen.Sales.Sale.State.{Sale, SaleStatus, draft, completed, voided}
use cullen.Sales.Sale.Methods.{
  is_draft, Call, add_call, remove_call, discount_call, pay_call, recipient_call, complete_call,
  void_call, run_call, add_item, remove_item, apply_item_discount, register_payments, set_recipient,
  complete, void,
}

not_draft : (st : SaleStatus) → st ≢ draft → is_draft st ≡ false
not_draft draft h = absurd (h refl)
not_draft completed h = refl
not_draft voided h = refl

-- A sale that is completed or voided is final: every method throws, whatever its arguments, and leaves
-- the sale as it was.
pub final_sale_refuses :
    (c : Call) (s : Sale) → s.status ≢ draft → run_call c s ≡ (err sale_invalid_state, s)
unfolding run_call add_item remove_item apply_item_discount register_payments set_recipient complete
    void
final_sale_refuses (add_call i p q d e) s h = ground (arith, not_draft s.status h)
final_sale_refuses (remove_call i d e) s h = ground (arith, not_draft s.status h)
final_sale_refuses (discount_call p m e) s h = ground (arith, not_draft s.status h)
final_sale_refuses (pay_call ps t d es) s h = ground (arith, not_draft s.status h)
final_sale_refuses (recipient_call r d e) s h = ground (arith, not_draft s.status h)
final_sale_refuses (complete_call d e) s h = ground (arith, not_draft s.status h)
final_sale_refuses (void_call r b d e) s h = ground (arith, not_draft s.status h)

-- The calls that change what is to be paid.
pub data ChangesAmount : Call → Type 0 where
  adds :
      (i : Text) (p : ProductSnapshot) (q : Quantity) (d : Date) (e : Text)
      → ChangesAmount (add_call i p q d e)
  removes : (i : Text) (d : Date) (e : Text) → ChangesAmount (remove_call i d e)
  discounts : (p : Discount) (m : Number) (e : Text) → ChangesAmount (discount_call p m e)
  pays :
      (ps : List Payment) (t : Money) (d : Date) (es : List Text)
      → ChangesAmount (pay_call ps t d es)

-- Once a draft has payments, what is to be paid is fixed: adding or removing an item, a discount and a
-- second payment throw, whatever their arguments, and leave the sale as it was.
pub paid_sale_locked :
    (c : Call) (s : Sale)
    → ChangesAmount c
    → s.status ≡ draft
    → is_empty s.payments ≡ false
    → run_call c s ≡ (err sale_locked_after_payment, s)
unfolding run_call add_item remove_item apply_item_discount register_payments
paid_sale_locked c s (adds i p q d e) h g = ground arith
paid_sale_locked c s (removes i d e) h g = ground arith
paid_sale_locked c s (discounts p m e) h g = ground arith
paid_sale_locked c s (pays ps t d es) h g = ground arith
