-- ===== src/Inventory/Item/State.antt =====
-- stock-item.ts, batch.ts: the fields of `StockItem`, what they say of it, and its batches.
use cullen.Prelude.{
  ℕ, Bool, true, false, not, ◌&&◌, Option, none, some, List, [], ◌∷◌, if◌then◌else◌,
}
use cullen.Prelude.Int.{ℤ, pos, ◌-ℤ◌, eqb_ℤ}
use cullen.Prelude.Text.{Text, eqb, Date, integer}
use cullen.Prelude.Double.{add_numbers}
use cullen.Shared.Errors.{stock_cost_currency_mismatch}
use cullen.Shared.Result.{Result, ok, ◌>>=◌, ◌>>◌, throw_if}
use cullen.Shared.Quantity.{Quantity, from_scaled, is_zero}
use cullen.Shared.Money.{Money, zero_money, add, subtract, multiply_by_quantity, divide_by_quantity}
use cullen.Inventory.Maps.{map_get}
use cullen.Inventory.Movement.{StockMovement, is_incoming}

-- `Batch`
pub record Batch : Type 0 where
  pub id : Text
  pub lot_number : Text
  pub expires_at : Option Date

-- `StockMovementRegisteredEvent`, whose payload is taken from its movement.
pub record StockEvent : Type 0 where
  pub movement : StockMovement
  pub aggregate_id : Text
  pub aggregate_version : ℕ

pub record StockItem : Type 0 where
  pub id : Text
  pub product_id : Text
  pub unit_code : Text
  pub quantity_scale : ℕ
  pub tracks_batches : Bool
  pub valuation_currency : Option Text
  pub batches : List Batch
  pub movements : List StockMovement
  pub events : List StockEvent
  pub movements_by_id : List (Text × StockMovement)
  pub movement_event_ids : List Text
  pub cost_currencies : List Text
  pub balance_scaled : ℤ
  pub batch_balances_scaled : List (Text × ℤ)

-- The quantity of a movement, negative if it goes out.
abbrev pub signed : StockMovement → ℤ
signed m = if is_incoming m.type then m.quantity.scaled_value else pos 0 -ℤ m.quantity.scaled_value

abbrev pub or_zero : Option ℤ → ℤ
or_zero none = pos 0
or_zero (some z) = z

-- `calculateBalance`
unfoldable pub calculate_balance : Option Text → StockItem → Result Quantity
calculate_balance none s = from_scaled (integer s.balance_scaled) (integer (pos s.quantity_scale))
calculate_balance (some b) s =
    from_scaled (integer (or_zero (map_get b s.batch_balances_scaled)))
      (integer (pos s.quantity_scale))

abbrev wrong_currency : Option Money → Text → Bool
wrong_currency none currency = false
wrong_currency (some c) currency = not (eqb c.currency currency)

abbrev is_known : Option Money → Bool
is_known none = false
is_known (some c) = true

-- The value after a movement: unchanged if it, or an earlier cost, is unknown.
abbrev value_after : Bool → Money → StockMovement → Result Money
value_after known value m = elim m.unit_cost [
  | none ↦ ok value
  | some c ↦
      if known
      then (do
        moved ← multiply_by_quantity c m.quantity
        if is_incoming m.type then add value moved else subtract value moved)
      else ok value
]

-- The loop of `inventoryValue`.
unfoldable pub value_from : Text → List StockMovement → Money → ℤ → Bool → Result (Option Money)
unfolding add_numbers
value_from currency [] value balance known = ok (if known then some value else none)
value_from currency (m ∷ ms) value balance known = do
  throw_if (wrong_currency m.unit_cost currency) stock_cost_currency_mismatch
  value' ← value_after known value m
  zero ← zero_money currency
  let known' = is_known m.unit_cost && known
  let balance' = add_numbers balance (signed m)
  value_from currency ms (if eqb_ℤ balance' (pos 0) then zero else value') balance'
      (if eqb_ℤ balance' (pos 0) then true else known')

-- `inventoryValue`
unfoldable pub inventory_value : StockItem → Result (Option Money)
inventory_value s = elim s.valuation_currency [
  | none ↦ ok none
  | some currency ↦ do zero ← zero_money currency; value_from currency s.movements zero (pos 0) true
]

-- `averageUnitCost`
unfoldable pub average_unit_cost : StockItem → Result (Option Money)
average_unit_cost s = do
  value ← inventory_value s
  elim value [
    | none ↦ ok none
    | some v ↦ do
      balance ← calculate_balance none s
      if is_zero balance
          then ok none
          else do average ← divide_by_quantity v balance; ok (some average)
  ]
