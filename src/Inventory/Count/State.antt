-- ===== src/Inventory/Count/State.antt =====
-- stock-count.ts: the fields of `StockCount` and its lines, and what makes them.
use cullen.Prelude.{ℕ, Option, none, some, List, [], ◌∷◌, map}
use cullen.Prelude.Int.{pos, ltb_ℤ}
use cullen.Prelude.Double.{Double}
use cullen.Prelude.Text.{Text, Date, Number}
use cullen.Shared.Errors.{
  stock_count_line_id_required, stock_count_line_product_required,
  stock_count_line_stock_item_required, stock_count_line_batch_required,
  stock_count_line_quantity_invalid, stock_count_id_required, stock_count_actor_required,
  stock_count_origin_node_required,
}
use cullen.Shared.Result.{Result, ok, ◌>>=◌, ◌>>◌, throw_if, require_text}
use cullen.Shared.Quantity.{Quantity}
use cullen.Inventory.Maps.{map_set}

-- `StockCountStatus`
pub data CountStatus : Type 0 where
  count_open counted approved rejected : CountStatus

-- `StockCountLine`, and the props it is created from.
pub record CountLine : Type 0 where
  pub id : Text
  pub product_id : Text
  pub stock_item_id : Text
  pub batch_id : Option Text
  pub counted_quantity : Quantity

-- `StockCountDifference`. Its amounts come from the caller, and need not be integers.
pub record Difference : Type 0 where
  pub line_id : Text
  pub stock_item_id : Text
  pub batch_id : Option Text
  pub quantity_scale : Number
  pub expected_scaled : Double
  pub counted_scaled : Double
  pub difference_scaled : Double
  pub stock_availability_version : Number

-- A line of the event's payload, with the product that is looked up for it.
pub record ApprovedLine : Type 0 where
  pub product_id : Option Text
  pub difference : Difference

-- `StockCountEvent`
pub record CountEvent : Type 0 where
  pub event_id : Text
  pub aggregate_id : Text
  pub aggregate_version : ℕ
  pub occurred_at : Date
  pub terminal_id : Text
  pub reason : Text
  pub line_count : ℕ
  pub lines : List ApprovedLine

pub record StockCount : Type 0 where
  pub id : Text
  pub opened_by : Text
  pub origin_node_id : Text
  pub opened_at : Date
  pub status : CountStatus
  pub version : ℕ
  pub line_map : List (Text × CountLine)
  pub differences : Option (List Difference)
  pub closed_at : Option Date
  pub approved_by : Option Text
  pub approved_at : Option Date
  pub rejected_by : Option Text
  pub rejected_at : Option Date
  pub rejection_reason : Option Text
  pub events : List CountEvent

-- `lines`
abbrev pub lines : StockCount → List CountLine
lines c = map (λ e. e.1) c.line_map

abbrev or_empty : Option Text → Text
or_empty none = []
or_empty (some t) = t

abbrev join : Text → Text → Text
join [] t = t
join (c ∷ s) t = c ∷ join s t

-- `lineKey`
unfoldable pub line_key : CountLine → Text
line_key l = join l.stock_item_id (b':' ∷ or_empty l.batch_id)

abbrev required_batch : Option Text → Result (Option Text)
required_batch none = ok none
required_batch (some b) = do t ← require_text b stock_count_line_batch_required; ok (some t)

-- `StockCountLine.create`
unfoldable pub create_line : CountLine → Result CountLine
create_line props = do
  id ← require_text props.id stock_count_line_id_required
  product_id ← require_text props.product_id stock_count_line_product_required
  stock_item_id ← require_text props.stock_item_id stock_count_line_stock_item_required
  batch_id ← required_batch props.batch_id
  throw_if (ltb_ℤ props.counted_quantity.scaled_value (pos 0)) stock_count_line_quantity_invalid
  ok (record {
    id = id;
    product_id = product_id;
    stock_item_id = stock_item_id;
    batch_id = batch_id;
    counted_quantity = props.counted_quantity;
  })

-- `StockCountProps`
pub record CountProps : Type 0 where
  pub id : Text
  pub opened_by : Text
  pub origin_node_id : Text
  pub opened_at : Date

abbrev new_count : Text → Text → Text → Date → CountStatus → ℕ → StockCount
new_count id opened_by origin_node_id opened_at status version = record {
  id = id;
  opened_by = opened_by;
  origin_node_id = origin_node_id;
  opened_at = opened_at;
  status = status;
  version = version;
  line_map = [];
  differences = none;
  closed_at = none;
  approved_by = none;
  approved_at = none;
  rejected_by = none;
  rejected_at = none;
  rejection_reason = none;
  events = [];
}

-- `StockCount.open`
unfoldable pub open_count : CountProps → Result StockCount
open_count props = do
  id ← require_text props.id stock_count_id_required
  opened_by ← require_text props.opened_by stock_count_actor_required
  origin_node_id ← require_text props.origin_node_id stock_count_origin_node_required
  ok (new_count id opened_by origin_node_id props.opened_at count_open 1)

-- `RestoredStockCountProps`
pub record RestoredCount : Type 0 where
  pub props : CountProps
  pub status : CountStatus
  pub lines : List CountLine
  pub differences : Option (List Difference)
  pub closed_at : Option Date
  pub approved_by : Option Text
  pub approved_at : Option Date
  pub rejected_by : Option Text
  pub rejected_at : Option Date
  pub rejection_reason : Option Text
  pub version : ℕ

unfoldable pub set_lines : List CountLine → List (Text × CountLine) → List (Text × CountLine)
unfolding map_set line_key
set_lines [] m = m
set_lines (l ∷ ls) m = set_lines ls (map_set (line_key l) l m)

-- `StockCount.restore`
unfoldable pub restore_count : RestoredCount → StockCount
unfolding set_lines
restore_count r =
    record (new_count r.props.id r.props.opened_by r.props.origin_node_id r.props.opened_at r.status
      r.version) {
        line_map = set_lines r.lines [];
        differences = r.differences;
        closed_at = r.closed_at;
        approved_by = r.approved_by;
        approved_at = r.approved_at;
        rejected_by = r.rejected_by;
        rejected_at = r.rejected_at;
        rejection_reason = r.rejection_reason;
      }
