-- ===== src/Purchasing/Receipt/Life.antt =====
-- What holds of a receipt through its life.
use cullen.Prelude.{
  ℕ, ◌≡◌, refl, subst, Bool, true, false, Option, none, some, List, [], ◌∷◌, is_empty, arith,
}
use cullen.Prelude.Text.{trim, is_invalid}
use cullen.Shared.Errors.{purchase_receipt_event_id_required, purchase_receipt_invalid_state}
use cullen.Shared.Result.{ok, err, require_text, >>=-eq-ok, ok_injective}
use cullen.Purchasing.Receipt.State.{
  PurchaseReceipt, StartReceiptProps, ReceiptStatus, receipt_draft, receipt_completed,
  receipt_reversed,
}
use cullen.Purchasing.Receipt.Start.{receipt_date, start_props, start_receipt}
use cullen.Purchasing.Receipt.Methods.{
  ReceiptCall, complete_call, reverse_call, complete_receipt, reverse_receipt, assert_can_reverse,
  after_receipt_calls, CompleteReceipt, ReverseReceipt,
}

-- The version of a receipt in this status.
abbrev pub version_in : ReceiptStatus → ℕ
version_in receipt_draft = 1
version_in receipt_completed = 2
version_in receipt_reversed = 3

abbrev is_known : {A : Type 0} → Option A → Bool
is_known none = false
is_known (some a) = true

abbrev pub is_after_draft : ReceiptStatus → Bool
is_after_draft receipt_draft = false
is_after_draft receipt_completed = true
is_after_draft receipt_reversed = true

abbrev pub is_reversed : ReceiptStatus → Bool
is_reversed receipt_draft = false
is_reversed receipt_completed = false
is_reversed receipt_reversed = true

-- The status says how far the receipt has come: its version, and which dates and names it has.
pub record IsConsistent (r : PurchaseReceipt) : Type 0 where
  pub version : r.version ≡ version_in r.status
  pub completed : is_known r.completed_at ≡ is_after_draft r.status
  pub reversed : is_known r.reversed_at ≡ is_reversed r.status
  pub reverser : is_known r.reversed_by ≡ is_reversed r.status
  pub reason : is_known r.reversal_reason ≡ is_reversed r.status

complete-IsConsistent :
    (p : CompleteReceipt) (r : PurchaseReceipt)
    → IsConsistent r
    → IsConsistent (complete_receipt p r).1
unfolding complete_receipt
complete-IsConsistent p r v = ground (arith, v)

reverse-IsConsistent :
    (p : ReverseReceipt) (r : PurchaseReceipt)
    → IsConsistent r
    → IsConsistent (reverse_receipt p r).1
unfolding reverse_receipt assert_can_reverse
reverse-IsConsistent p r v = ground (arith, v)

after-IsConsistent :
    (cs : List ReceiptCall) (r : PurchaseReceipt)
    → IsConsistent r
    → IsConsistent (after_receipt_calls cs r)
unfolding after_receipt_calls
after-IsConsistent [] r v = v
after-IsConsistent (complete_call p ∷ cs) r v =
    after-IsConsistent cs (complete_receipt p r).1 (complete-IsConsistent p r v)
after-IsConsistent (reverse_call p ∷ cs) r v =
    after-IsConsistent cs (reverse_receipt p r).1 (reverse-IsConsistent p r v)

start-IsConsistent :
    (p : StartReceiptProps) (r : PurchaseReceipt) → start_receipt p ≡ ok r → IsConsistent r
unfolding start_receipt
start-IsConsistent p r h =
    let (props, f, g) = >>=-eq-ok (start_props p) _ h in
    subst IsConsistent (ok_injective g)
      (record { version = refl; completed = refl; reversed = refl; reverser = refl; reason = refl })

-- Whatever is called on a new receipt, successfully or not: its version is 1 as a draft, 2 when completed and
-- 3 when reversed, it has a completion date exactly if it is no draft, and a reversal date, a
-- reverser and a reason exactly if it is reversed.
pub reachable-IsConsistent :
    (p : StartReceiptProps) (r : PurchaseReceipt) (cs : List ReceiptCall)
    → start_receipt p ≡ ok r
    → IsConsistent (after_receipt_calls cs r)
reachable-IsConsistent p r cs h = after-IsConsistent cs r (start-IsConsistent p r h)

-- If only the event's identity is blank, `reverse` throws on a completed receipt, but the receipt is reversed
-- all the same, with no event to tell of it, and a second call is refused.
pub reverse_not_atomic :
    (p q : ReverseReceipt) (r : PurchaseReceipt)
    → r.status ≡ receipt_completed
    → is_empty (trim p.reason) ≡ false
    → is_empty (trim p.actor_id) ≡ false
    → is_invalid p.occurred_at ≡ false
    → is_empty (trim p.event_id) ≡ true
    → let (outcome, e) = reverse_receipt p r in
      (outcome ≡ err purchase_receipt_event_id_required)
      × (e.status ≡ receipt_reversed)
      × (e.events ≡ r.events)
      × (reverse_receipt q e ≡ (err purchase_receipt_invalid_state, e))
unfolding reverse_receipt assert_can_reverse require_text receipt_date
reverse_not_atomic p q r s n a t b = ground (arith, s, n, a, t, b)
