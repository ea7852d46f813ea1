-- ===== src/Purchasing/Receipt/Methods.antt =====
-- purchase-receipt.ts: the methods of `PurchaseReceipt`.
use cullen.Prelude.{◌+◌, Bool, true, false, not, some, List, [], ◌∷◌, length, push}
use cullen.Prelude.Text.{Text, Date}
use cullen.Shared.Errors.{
  purchase_receipt_invalid_state, purchase_receipt_actor_required,
  purchase_receipt_terminal_required, purchase_receipt_reason_required,
  purchase_receipt_event_id_required, purchase_receipt_timestamp_invalid,
  purchase_receipt_reversal_reason_required,
}
use cullen.Shared.Result.{require_text}
use cullen.Shared.Action.{Action, pure, lift, gets, throw_when, modify, ◌>>=◌, ◌>>◌}
use cullen.Purchasing.Receipt.State.{
  PurchaseReceipt, ReceiptStatus, receipt_draft, receipt_completed, receipt_reversed,
  ReceiptEventBody, receipt_is_completed, receipt_is_reversed,
}
use cullen.Purchasing.Receipt.Start.{receipt_date}

abbrev pub is_draft_receipt : ReceiptStatus → Bool
is_draft_receipt s = elim s [ receipt_draft ↦ true | _ ↦ false ]

abbrev pub is_completed_receipt : ReceiptStatus → Bool
is_completed_receipt s = elim s [ receipt_completed ↦ true | _ ↦ false ]

-- `this.events.push`
abbrev push_event : ReceiptEventBody → Text → Date → Action PurchaseReceipt (Unit {0})
push_event body event_id occurred_at = modify λ r. record r {
  events = push r.events (record {
    body = body;
    event_id = event_id;
    aggregate_id = r.props.id;
    aggregate_version = r.version;
    occurred_at = occurred_at;
  });
}

-- What `complete` takes.
pub record CompleteReceipt : Type 0 where
  pub actor_id : Text
  pub terminal_id : Text
  pub reason : Text
  pub occurred_at : Date
  pub event_id : Text

-- `complete`
unfoldable pub complete_receipt : CompleteReceipt → Action PurchaseReceipt (Unit {0})
unfolding receipt_date
complete_receipt p = do
  throw_when (λ r. not (is_draft_receipt r.status)) purchase_receipt_invalid_state
  lift (require_text p.actor_id purchase_receipt_actor_required)
  terminal_id ← lift (require_text p.terminal_id purchase_receipt_terminal_required)
  reason ← lift (require_text p.reason purchase_receipt_reason_required)
  event_id ← lift (require_text p.event_id purchase_receipt_event_id_required)
  completed_at ← lift (receipt_date p.occurred_at purchase_receipt_timestamp_invalid)
  modify λ r. record r {
    status = receipt_completed;
    version = r.version + 1;
    completed_at = some completed_at;
  }
  props ← gets (λ r. r.props)
  push_event
      (receipt_is_completed props.supplier_id props.source_document.type
        props.source_document.number terminal_id reason (length props.lines) props.lines)
      event_id completed_at

-- What `reverse` takes.
pub record ReverseReceipt : Type 0 where
  pub actor_id : Text
  pub reason : Text
  pub occurred_at : Date
  pub event_id : Text

-- `assertCanReverse`
unfoldable pub assert_can_reverse : ReverseReceipt → Action PurchaseReceipt (Unit {0})
unfolding receipt_date
assert_can_reverse p = do
  throw_when (λ r. not (is_completed_receipt r.status)) purchase_receipt_invalid_state
  lift (require_text p.reason purchase_receipt_reversal_reason_required)
  lift (require_text p.actor_id purchase_receipt_actor_required)
  lift (receipt_date p.occurred_at purchase_receipt_timestamp_invalid)
  pure tt

-- `reverse`: the status is assigned before the event's identity is checked.
unfoldable pub reverse_receipt : ReverseReceipt → Action PurchaseReceipt (Unit {0})
unfolding assert_can_reverse receipt_date
reverse_receipt p = do
  assert_can_reverse p
  modify (λ r. record r { status = receipt_reversed; version = r.version + 1 })
  reason ← lift (require_text p.reason purchase_receipt_reversal_reason_required)
  modify (λ r. record r { reversal_reason = some reason })
  reversed_by ← lift (require_text p.actor_id purchase_receipt_actor_required)
  modify (λ r. record r { reversed_by = some reversed_by })
  reversed_at ← lift (receipt_date p.occurred_at purchase_receipt_timestamp_invalid)
  modify (λ r. record r { reversed_at = some reversed_at })
  event_id ← lift (require_text p.event_id purchase_receipt_event_id_required)
  id ← gets (λ r. r.props.id)
  push_event (receipt_is_reversed id reason) event_id reversed_at

-- The calls of the class's methods that change it.
pub data ReceiptCall : Type 0 where
  complete_call : CompleteReceipt → ReceiptCall
  reverse_call : ReverseReceipt → ReceiptCall

-- The receipt after a sequence of calls, successful or not.
unfoldable pub after_receipt_calls : List ReceiptCall → PurchaseReceipt → PurchaseReceipt
unfolding complete_receipt reverse_receipt
after_receipt_calls [] r = r
after_receipt_calls (complete_call p ∷ cs) r = after_receipt_calls cs (complete_receipt p r).1
after_receipt_calls (reverse_call p ∷ cs) r = after_receipt_calls cs (reverse_receipt p r).1
