-- ===== src/Inventory/Item/Create.antt =====
-- stock-item.ts, batch.ts: `StockItem.create`, `Batch.create` and `registerBatch`.
use cullen.Prelude.{
  ℕ, Bool, true, false, not, ◌&&◌, ◌||◌, Option, none, some, List, [], ◌∷◌, any, leb, ◌==◌, push,
  if◌then◌else◌,
}
use cullen.Prelude.Int.{pos, negsuc}
use cullen.Prelude.Text.{Text, eqb, trim, Date, is_invalid, Number, integer, not_integer}
use cullen.Shared.Errors.{
  stock_item_id_required, stock_product_id_required, stock_unit_code_invalid,
  stock_quantity_scale_invalid, stock_batch_id_required, stock_batch_lot_required,
  stock_batch_expiry_invalid, stock_batch_not_tracked, stock_batch_duplicate,
  stock_batch_lot_duplicate,
}
use cullen.Shared.Result.{Result, ok, err, ◌>>=◌, ◌>>◌, throw_if, require_text}
use cullen.Shared.Action.{Action}
use cullen.Inventory.Movement.{StockMovement}
use cullen.Inventory.Item.State.{StockItem, Batch}
use cullen.Inventory.Item.Methods.{append_movement}

abbrev is_upper : ℕ → Bool
is_upper c = leb b'A' c && leb c b'Z'

abbrev is_unit_code_unit : ℕ → Bool
is_unit_code_unit c = is_upper c || (leb b'0' c && leb c b'9') || c == b'_' || c == b'-'

abbrev all : (ℕ → Bool) → Text → Bool
all p [] = true
all p (c ∷ s) = p c && all p s

-- `UNIT_CODE_PATTERN`, /^[A-Z][A-Z0-9_-]*$/
unfoldable pub is_unit_code : Text → Bool
is_unit_code [] = false
is_unit_code (c ∷ s) = is_upper c && all is_unit_code_unit s

-- `StockItemProps`
pub record StockItemProps : Type 0 where
  pub id : Text
  pub product_id : Text
  pub unit_code : Text
  pub quantity_scale : Number
  pub tracks_batches : Bool

abbrev pub scale_upto_six : Number → Result ℕ
scale_upto_six (integer (pos n)) = if leb n 6 then ok n else err stock_quantity_scale_invalid
scale_upto_six (integer (negsuc n)) = err stock_quantity_scale_invalid
scale_upto_six not_integer = err stock_quantity_scale_invalid

abbrev expires_never : Option Date → Bool
expires_never none = false
expires_never (some d) = is_invalid d

-- `String.prototype.toUpperCase`, whose Unicode tables the model does not hold.
module _ (to_upper : Text → Text) where
  -- `StockItem.create`
  unfoldable pub create_stock_item : StockItemProps → Result StockItem
  create_stock_item props = do
    id ← require_text props.id stock_item_id_required
    product_id ← require_text props.product_id stock_product_id_required
    throw_if (not (is_unit_code (to_upper (trim props.unit_code)))) stock_unit_code_invalid
    quantity_scale ← scale_upto_six props.quantity_scale
    ok (record {
      id = id;
      product_id = product_id;
      unit_code = to_upper (trim props.unit_code);
      quantity_scale = quantity_scale;
      tracks_batches = props.tracks_batches;
      valuation_currency = none;
      batches = [];
      movements = [];
      events = [];
      movements_by_id = [];
      movement_event_ids = [];
      cost_currencies = [];
      balance_scaled = pos 0;
      batch_balances_scaled = [];
    })

  -- `Batch.create`
  unfoldable pub create_batch : Batch → Result Batch
  create_batch props = do
    id ← require_text props.id stock_batch_id_required
    lot ← require_text props.lot_number stock_batch_lot_required
    throw_if (expires_never props.expires_at) stock_batch_expiry_invalid
    ok (record { id = id; lot_number = to_upper lot; expires_at = props.expires_at })

  -- What `registerBatch` checks.
  unfoldable pub batch_for : Batch → StockItem → Result Batch
  batch_for props s = do
    throw_if (not s.tracks_batches) stock_batch_not_tracked
    batch ← create_batch props
    throw_if (any (λ b. eqb b.id batch.id) s.batches) stock_batch_duplicate
    throw_if (any (λ b. eqb b.lot_number batch.lot_number) s.batches) stock_batch_lot_duplicate
    ok batch

  -- `registerBatch`
  unfoldable pub register_batch : Batch → Action StockItem Batch
  register_batch props s = elim (batch_for props s) [
    | ok b ↦ (ok b, record s { batches = push s.batches b })
    | err e ↦ (err e, s)
  ]

-- The calls of the class's methods that change it.
pub data StockCall : Type 0 where
  batch_call : Batch → StockCall
  movement_call : StockMovement → Bool → StockCall

-- The item after a sequence of calls, successful or not.
unfoldable pub after_calls : (Text → Text) → List StockCall → StockItem → StockItem
after_calls up [] s = s
after_calls up (batch_call b ∷ cs) s = after_calls up cs (register_batch up b s).1
after_calls up (movement_call m infer ∷ cs) s = after_calls up cs (append_movement m infer s).1
