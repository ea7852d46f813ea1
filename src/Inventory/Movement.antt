-- ===== src/Inventory/Movement.antt =====
-- stock-movement.ts: a movement of stock.
use cullen.Prelude.{Bool, true, false, ◌&&◌, Option, none, some, ◌==◌}
use cullen.Prelude.Int.{pos, leb_ℤ, eqb_ℤ}
use cullen.Prelude.Text.{Text, eqb, trim, Date, is_invalid, date_eqb}
use cullen.Shared.Errors.{
  stock_movement_id_required, stock_movement_quantity_invalid, stock_batch_id_required,
  stock_movement_actor_required, stock_movement_reason_required, stock_movement_reference_required,
  stock_movement_event_id_required, stock_movement_timestamp_invalid,
}
use cullen.Shared.Result.{Result, ok, ◌>>=◌, ◌>>◌, throw_if, require_text}
use cullen.Shared.Quantity.{Quantity}
use cullen.Shared.Money.{Money}

-- `StockMovementType`
pub data StockMovementType : Type 0 where
  purchase_receipt sale_issue waste adjustment_in adjustment_out : StockMovementType

-- `direction === 'IN'`, by `MOVEMENT_DIRECTIONS`
abbrev pub is_incoming : StockMovementType → Bool
is_incoming t = elim t [ purchase_receipt ↦ true | adjustment_in ↦ true | _ ↦ false ]

abbrev pub is_sale_issue : StockMovementType → Bool
is_sale_issue t = elim t [ sale_issue ↦ true | _ ↦ false ]

abbrev pub is_purchase_receipt : StockMovementType → Bool
is_purchase_receipt t = elim t [ purchase_receipt ↦ true | _ ↦ false ]

-- `===` on movement types
abbrev pub stock_type_eqb : StockMovementType → StockMovementType → Bool
stock_type_eqb purchase_receipt t = elim t [ purchase_receipt ↦ true | _ ↦ false ]
stock_type_eqb sale_issue t = elim t [ sale_issue ↦ true | _ ↦ false ]
stock_type_eqb waste t = elim t [ waste ↦ true | _ ↦ false ]
stock_type_eqb adjustment_in t = elim t [ adjustment_in ↦ true | _ ↦ false ]
stock_type_eqb adjustment_out t = elim t [ adjustment_out ↦ true | _ ↦ false ]

-- `StockMovementProps`; also the fields of a `StockMovement`, whose direction is a function of its type.
pub record StockMovement : Type 0 where
  pub id : Text
  pub type : StockMovementType
  pub quantity : Quantity
  pub batch_id : Option Text
  pub actor_id : Text
  pub reason : Text
  pub reference_id : Text
  pub occurred_at : Date
  pub event_id : Text
  pub unit_cost : Option Money

abbrev optional_batch : Option Text → Result (Option Text)
optional_batch none = ok none
optional_batch (some b) = do b' ← require_text b stock_batch_id_required; ok (some b')

-- `StockMovement.create`
unfoldable pub create_stock_movement : StockMovement → Result StockMovement
create_stock_movement props = do
  id ← require_text props.id stock_movement_id_required
  throw_if (leb_ℤ props.quantity.scaled_value (pos 0)) stock_movement_quantity_invalid
  batch_id ← optional_batch props.batch_id
  actor_id ← require_text props.actor_id stock_movement_actor_required
  reason ← require_text props.reason stock_movement_reason_required
  reference_id ← require_text props.reference_id stock_movement_reference_required
  event_id ← require_text props.event_id stock_movement_event_id_required
  throw_if (is_invalid props.occurred_at) stock_movement_timestamp_invalid
  ok (record props {
    id = id;
    batch_id = batch_id;
    actor_id = actor_id;
    reason = reason;
    reference_id = reference_id;
    event_id = event_id;
  })

-- `this.batchId === (props.batchId?.trim() ?? null)`
abbrev batch_eqb : Option Text → Option Text → Bool
batch_eqb none none = true
batch_eqb none (some b) = false
batch_eqb (some a) none = false
batch_eqb (some a) (some b) = eqb a (trim b)

-- `this.unitCost?.minorUnits === (props.unitCost?.minorUnits ?? null)`, and the same of the currency.
-- Without a cost the left side is `undefined`, which is neither `null` nor a value.
abbrev pub cost_eqb : Option Money → Option Money → Bool
cost_eqb none p = false
cost_eqb (some a) none = false
cost_eqb (some a) (some b) = eqb_ℤ a.minor_units b.minor_units && eqb a.currency b.currency

-- `matches`
unfoldable pub stock_matches : StockMovement → StockMovement → Bool
stock_matches m props =
    stock_type_eqb m.type props.type
    && eqb_ℤ m.quantity.scaled_value props.quantity.scaled_value
    && (m.quantity.scale == props.quantity.scale)
    && batch_eqb m.batch_id props.batch_id
    && eqb m.actor_id (trim props.actor_id)
    && eqb m.reason (trim props.reason)
    && eqb m.reference_id (trim props.reference_id)
    && date_eqb m.occurred_at props.occurred_at
    && eqb m.event_id (trim props.event_id)
    && cost_eqb m.unit_cost props.unit_cost
