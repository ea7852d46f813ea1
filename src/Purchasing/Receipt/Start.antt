-- ===== src/Purchasing/Receipt/Start.antt =====
-- purchase-receipt.ts: `PurchaseReceipt.start` and `PurchaseReceipt.restore`.
use cullen.Prelude.{
  ℕ, Bool, true, false, ◌&&◌, ◌||◌, Option, none, some, List, [], ◌∷◌, any, is_empty, if◌then◌else◌,
}
use cullen.Prelude.Int.{pos, ltb_ℤ, leb_ℤ}
use cullen.Prelude.Text.{Text, codes, eqb, trim, Date, is_invalid}
use cullen.Shared.Errors.{
  DomainError, purchase_receipt_supplier_name_required, purchase_receipt_fiscal_address_required,
  purchase_receipt_lines_required, purchase_receipt_line_id_required,
  purchase_receipt_line_duplicated, purchase_receipt_line_invalid,
  purchase_receipt_product_required, purchase_receipt_stock_item_required,
  purchase_receipt_unit_required, purchase_receipt_batch_expiry_invalid,
  purchase_receipt_source_number_required, purchase_receipt_source_date_invalid,
  purchase_receipt_id_required, purchase_receipt_supplier_required,
  purchase_receipt_effective_date_invalid, purchase_receipt_actor_required,
  purchase_receipt_origin_node_required, purchase_receipt_created_at_invalid,
}
use cullen.Shared.Result.{Result, ok, err, ◌>>=◌, ◌>>◌, throw_if, require_text}
use cullen.Inventory.Maps.{set_add}
use cullen.Purchasing.Receipt.State.{
  PurchaseReceipt, ReceiptStatus, receipt_draft, StartReceiptProps, ReceiptLine, SupplierSnapshot,
  SourceDocument, FiscalAddress,
}

-- `optional`
unfoldable pub optional : Option Text → Option Text
optional none = none
optional (some t) = if is_empty (trim t) then none else some (trim t)

-- `validDate`
unfoldable pub receipt_date : Date → DomainError → Result Date
receipt_date d e = if is_invalid d then err e else ok d

-- A date that may be missing.
unfoldable pub optional_date : Option Date → DomainError → Result (Option Date)
unfolding receipt_date
optional_date none e = ok none
optional_date (some d) e = do x ← receipt_date d e; ok (some x)

abbrev pub is_missing : Option FiscalAddress → Bool
is_missing none = true
is_missing (some a) = false

-- The supplier's snapshot in `start`.
unfoldable pub start_snapshot : SupplierSnapshot → Result SupplierSnapshot
unfolding optional
start_snapshot s = do
  legal_name ← require_text s.legal_name purchase_receipt_supplier_name_required
  throw_if (eqb s.tax_identity.country (codes "VE") && is_missing s.fiscal_address)
      purchase_receipt_fiscal_address_required
  ok (record s { legal_name = legal_name; trade_name = optional s.trade_name })

abbrev pub is_invalid_line : ReceiptLine → Bool
is_invalid_line l =
    leb_ℤ l.quantity.scaled_value (pos 0)
    || ltb_ℤ l.purchase_unit_cost.minor_units (pos 0)
    || ltb_ℤ l.valuation_unit_cost.minor_units (pos 0)

-- What `start` makes of a line, after the identifiers of those before it.
unfoldable pub start_line : List Text → ReceiptLine → Result ReceiptLine
unfolding optional optional_date
start_line seen l = do
  id ← require_text l.id purchase_receipt_line_id_required
  throw_if (any (eqb id) seen) purchase_receipt_line_duplicated
  throw_if (is_invalid_line l) purchase_receipt_line_invalid
  product_id ← require_text l.product_id purchase_receipt_product_required
  stock_item_id ← require_text l.stock_item_id purchase_receipt_stock_item_required
  unit_code ← require_text l.unit_code purchase_receipt_unit_required
  expires_at ← optional_date l.batch_expires_at purchase_receipt_batch_expiry_invalid
  ok (record l {
    id = id;
    product_id = product_id;
    stock_item_id = stock_item_id;
    unit_code = unit_code;
    batch_id = optional l.batch_id;
    batch_lot_number = optional l.batch_lot_number;
    batch_expires_at = expires_at;
  })

-- The lines of `start`.
unfoldable pub start_lines : List Text → List ReceiptLine → Result (List ReceiptLine)
unfolding start_line set_add
start_lines seen [] = ok []
start_lines seen (l ∷ ls) = do
  x ← start_line seen l
  xs ← start_lines (set_add x.id seen) ls
  ok (x ∷ xs)

-- The source document in `start`.
unfoldable pub start_source : SourceDocument → Result SourceDocument
unfolding optional optional_date
start_source d = do
  number ← require_text d.number purchase_receipt_source_number_required
  issued_at ← optional_date d.issued_at purchase_receipt_source_date_invalid
  ok (record d {
    number = number;
    series = optional d.series;
    control_number = optional d.control_number;
    issued_at = issued_at;
  })

-- What `start` makes of its props.
unfoldable pub start_props : StartReceiptProps → Result StartReceiptProps
unfolding start_snapshot start_lines start_source optional receipt_date
start_props p = do
  snapshot ← start_snapshot p.supplier_snapshot
  throw_if (is_empty p.lines) purchase_receipt_lines_required
  lines ← start_lines [] p.lines
  source ← start_source p.source_document
  id ← require_text p.id purchase_receipt_id_required
  supplier_id ← require_text p.supplier_id purchase_receipt_supplier_required
  effective_at ← receipt_date p.effective_at purchase_receipt_effective_date_invalid
  created_by ← require_text p.created_by purchase_receipt_actor_required
  origin_node_id ← require_text p.origin_node_id purchase_receipt_origin_node_required
  created_at ← receipt_date p.created_at purchase_receipt_created_at_invalid
  ok (record {
    id = id;
    supplier_id = supplier_id;
    supplier_snapshot = snapshot;
    source_document = source;
    effective_at = effective_at;
    created_by = created_by;
    origin_node_id = origin_node_id;
    created_at = created_at;
    replaces_receipt_id = optional p.replaces_receipt_id;
    lines = lines;
  })

-- `PurchaseReceipt.start`
unfoldable pub start_receipt : StartReceiptProps → Result PurchaseReceipt
unfolding start_props
start_receipt p = do
  props ← start_props p
  ok (record {
    props = props;
    status = receipt_draft;
    version = 1;
    completed_at = none;
    reversed_at = none;
    reversed_by = none;
    reversal_reason = none;
    events = [];
  })

-- `RestorePurchaseReceiptProps`
pub record RestoreReceiptProps : Type 0 where
  pub started : StartReceiptProps
  pub status : ReceiptStatus
  pub version : ℕ
  pub completed_at : Option Date
  pub reversed_at : Option Date
  pub reversed_by : Option Text
  pub reversal_reason : Option Text

-- `PurchaseReceipt.restore`
unfoldable pub restore_receipt : RestoreReceiptProps → Result PurchaseReceipt
unfolding start_receipt
restore_receipt p = do
  receipt ← start_receipt p.started
  ok (record receipt {
    status = p.status;
    version = p.version;
    completed_at = p.completed_at;
    reversed_at = p.reversed_at;
    reversed_by = p.reversed_by;
    reversal_reason = p.reversal_reason;
  })
