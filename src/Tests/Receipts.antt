-- ===== src/Tests/Receipts.antt =====
-- The theorems on receipts of purchases, applied.
use cullen.Prelude.{◌≡◌, refl, false, none, some, [], ◌∷◌}
use cullen.Prelude.Text.{codes, eqb, trim, trim_start, is_space}
use cullen.Shared.Errors.{purchase_receipt_event_id_required, purchase_receipt_invalid_state}
use cullen.Shared.Result.{ok, err, require_text}
use cullen.Purchasing.Receipt.{
  PurchaseReceipt, StartReceiptProps, ReceiptLine, invoice, start_receipt, start_props,
  start_snapshot, start_lines, start_line, start_source, optional, optional_date, receipt_date,
  receipt_draft, receipt_completed, receipt_reversed, restore_receipt, complete_call, reverse_call,
  reverse_receipt, after_receipt_calls, CompleteReceipt, ReverseReceipt,
}
use cullen.Purchasing.Receipt.Restored.{stored_receipt, receipt_restored}
use cullen.Purchasing.Receipt.Life.{IsConsistent, reachable-IsConsistent, reverse_not_atomic}
use cullen.Tests.Values.{monday, tuesday, pieces, dollars}

abbrev line : ReceiptLine
line = record {
  id = codes "l1";
  product_id = codes "p1";
  stock_item_id = codes "k1";
  unit_code = codes "UND";
  tracks_batches = false;
  quantity = pieces 12;
  batch_id = none;
  batch_lot_number = none;
  batch_expires_at = none;
  purchase_unit_cost = dollars 250;
  valuation_unit_cost = dollars 250;
  exchange_rate = none;
}

abbrev props : StartReceiptProps
props = record {
  id = codes "r1";
  supplier_id = codes "s1";
  supplier_snapshot = record {
    legal_name = codes "Norte";
    trade_name = none;
    tax_identity = record {
      country = codes "US";
      type = codes "TAX_ID";
      value = codes "1";
      normalized_value = codes "1";
    };
    fiscal_address = none;
  };
  source_document = record {
    type = invoice;
    number = codes "17";
    series = none;
    control_number = none;
    issued_at = none;
  };
  effective_at = monday;
  created_by = codes "ana";
  origin_node_id = codes "n1";
  created_at = monday;
  replaces_receipt_id = none;
  lines = line ∷ [];
}

abbrev draft : PurchaseReceipt
draft = record {
  props = props;
  status = receipt_draft;
  version = 1;
  completed_at = none;
  reversed_at = none;
  reversed_by = none;
  reversal_reason = none;
  events = [];
}

abbrev completion : CompleteReceipt
completion = record {
  actor_id = codes "ana";
  terminal_id = codes "t1";
  reason = codes "delivery";
  occurred_at = tuesday;
  event_id = codes "e1";
}

abbrev reversal : ReverseReceipt
reversal = record {
  actor_id = codes "eva";
  reason = codes "wrong";
  occurred_at = tuesday;
  event_id = codes " ";
}

abbrev completed : PurchaseReceipt
completed = record draft { status = receipt_completed; version = 2; completed_at = some tuesday }

receipt_restored_example :
    restore_receipt (stored_receipt (after_receipt_calls (complete_call completion ∷ []) draft))
    ≡ ok (record (after_receipt_calls (complete_call completion ∷ []) draft) { events = [] })
unfolding start_receipt start_props start_snapshot start_lines start_line start_source optional
    optional_date receipt_date require_text trim trim_start is_space eqb
receipt_restored_example = receipt_restored props draft (complete_call completion ∷ []) refl

reachable-IsConsistent_example :
    IsConsistent (after_receipt_calls (complete_call completion ∷ reverse_call reversal ∷ []) draft)
unfolding start_receipt start_props start_snapshot start_lines start_line start_source optional
    optional_date receipt_date require_text trim trim_start is_space eqb
reachable-IsConsistent_example =
    reachable-IsConsistent props draft (complete_call completion ∷ reverse_call reversal ∷ []) refl

reverse_not_atomic_example :
    let (outcome, e) = reverse_receipt reversal completed in
    (outcome ≡ err purchase_receipt_event_id_required)
    × (e.status ≡ receipt_reversed)
    × (e.events ≡ completed.events)
    × (reverse_receipt reversal e ≡ (err purchase_receipt_invalid_state, e))
unfolding trim trim_start is_space
reverse_not_atomic_example = reverse_not_atomic reversal reversal completed refl refl refl refl refl
