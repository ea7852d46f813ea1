-- ===== src/Inventory/Item/Methods.antt =====
-- stock-item.ts, batch.ts: the methods of `StockItem`.
use cullen.Prelude.{
  Bool, true, false, not, ◌&&◌, Option, none, some, List, [], ◌∷◌, any, length, ◌==◌, push,
  if◌then◌else◌,
}
use cullen.Prelude.Int.{ℤ, ltb_ℤ}
use cullen.Prelude.Text.{Text, eqb, trim}
use cullen.Prelude.Double.{add_numbers}
use cullen.Shared.Errors.{
  stock_batch_not_tracked, stock_batch_not_found, stock_batch_not_accepted, stock_batch_required,
  stock_sale_issue_conflict, stock_movement_duplicate, stock_movement_event_duplicate,
  stock_cost_currency_undetermined, stock_cost_currency_mismatch, stock_quantity_scale_mismatch,
  stock_insufficient,
}
use cullen.Shared.Result.{Result, ok, err}
use cullen.Shared.Action.{Action, pure, lift, gets, reads, throw_when, modify, ◌>>=◌, ◌>>◌}
use cullen.Shared.Quantity.{Quantity}
use cullen.Shared.Money.{Money}
use cullen.Inventory.Maps.{map_get, map_set, set_add}
use cullen.Inventory.Movement.{
  StockMovement, is_incoming, is_sale_issue, is_purchase_receipt, create_stock_movement,
  stock_matches,
}
use cullen.Inventory.Item.State.{StockItem, signed, or_zero, calculate_balance, average_unit_cost}

-- `balanceForBatch`
unfoldable pub balance_for_batch : Text → StockItem → Result Quantity
balance_for_batch batch_id s =
    if not s.tracks_batches
    then err stock_batch_not_tracked
    else if not (any (λ b. eqb b.id (trim batch_id)) s.batches)
    then err stock_batch_not_found
    else calculate_balance (some (trim batch_id)) s

-- The movement that was registered under this identifier, and what it means for the call.
unfoldable pub replay_stock : Option StockMovement → StockMovement → Option (Result StockMovement)
replay_stock none props = none
replay_stock (some m) props =
    if is_sale_issue m.type && is_sale_issue props.type
    then (if stock_matches m props then some (ok m) else some (err stock_sale_issue_conflict))
    else some (err stock_movement_duplicate)

abbrev is_mixed : List Text → Bool
is_mixed [] = false
is_mixed (c ∷ []) = false
is_mixed (c ∷ d ∷ cs) = true

abbrev first_or : Text → List Text → Text
first_or d [] = d
first_or d (c ∷ cs) = c

-- The valuation currency after a movement with this cost.
unfoldable pub valuation_after : Option Money → StockItem → Result (Option Text)
valuation_after none s = ok s.valuation_currency
valuation_after (some cost) s = elim s.valuation_currency [
  | some v ↦ if eqb cost.currency v then ok (some v) else err stock_cost_currency_mismatch
  | none ↦
      if is_mixed s.cost_currencies
      then err stock_cost_currency_undetermined
      else if eqb cost.currency (first_or cost.currency s.cost_currencies)
      then ok (some (first_or cost.currency s.cost_currencies))
      else err stock_cost_currency_mismatch
]

-- The cost of the movement: the one given, or the average where it may be inferred.
unfoldable pub cost_of : StockMovement → Bool → StockItem → Result (Option Money)
cost_of props infer s = elim props.unit_cost [
  | some c ↦ ok (some c)
  | none ↦ if infer && not (is_purchase_receipt props.type) then average_unit_cost s else ok none
]

-- `assertBatchPolicy`
unfoldable pub assert_batch_policy : StockMovement → StockItem → Result (Unit {0})
assert_batch_policy m s = elim m.batch_id [
  | none ↦ if s.tracks_batches then err stock_batch_required else ok tt
  | some b ↦
      if not s.tracks_batches
      then err stock_batch_not_accepted
      else if any (λ x. eqb x.id b) s.batches
      then ok tt
      else err stock_batch_not_found
]

abbrev available : StockMovement → StockItem → Result Quantity
available m s = elim m.batch_id [ none ↦ calculate_balance none s | some b ↦ balance_for_batch b s ]

-- The check that an outgoing movement is covered.
unfoldable pub assert_available : StockMovement → StockItem → Result (Unit {0})
assert_available m s = if is_incoming m.type then ok tt else elim (available m s) [
  | err e ↦ err e
  | ok q ↦ if ltb_ℤ q.scaled_value m.quantity.scaled_value then err stock_insufficient else ok tt
]

abbrev currencies_after : Option Money → List Text → List Text
currencies_after none cs = cs
currencies_after (some c) cs = set_add c.currency cs

unfoldable pub batches_with : Option Text → ℤ → List (Text × ℤ) → List (Text × ℤ)
unfolding add_numbers map_set map_get
batches_with none z bs = bs
batches_with (some b) z bs = map_set b (add_numbers (or_zero (map_get b bs)) z) bs

-- `index`
unfoldable pub index : StockMovement → StockItem → StockItem
unfolding batches_with add_numbers
index m s = record s {
  movements_by_id = map_set m.id m s.movements_by_id;
  movement_event_ids = set_add m.event_id s.movement_event_ids;
  cost_currencies = currencies_after m.unit_cost s.cost_currencies;
  balance_scaled = add_numbers s.balance_scaled (signed m);
  batch_balances_scaled = batches_with m.batch_id (signed m) s.batch_balances_scaled;
}

-- The assignments that end `appendMovement`.
unfoldable pub stored : Option Text → StockMovement → StockItem → StockItem
unfolding index
stored valuation m s =
    let indexed =
      index m (record s { valuation_currency = valuation; movements = push s.movements m }) in
    record indexed {
      events = push s.events (record {
        movement = m;
        aggregate_id = s.id;
        aggregate_version = length (push s.movements m);
      });
    }

-- The rest of `appendMovement`, for a movement whose identifier is new.
unfoldable pub append_new : StockMovement → Bool → Action StockItem StockMovement
append_new props infer = do
  throw_when (λ s. any (eqb (trim props.event_id)) s.movement_event_ids)
      stock_movement_event_duplicate
  valuation ← reads (valuation_after props.unit_cost)
  cost ← reads (cost_of props infer)
  movement ← lift (create_stock_movement (record props { unit_cost = cost }))
  throw_when (λ s. not (movement.quantity.scale == s.quantity_scale)) stock_quantity_scale_mismatch
  reads (assert_batch_policy movement)
  reads (assert_available movement)
  modify (stored valuation movement)
  pure movement

-- `appendMovement`, which is `registerMovement` with its option filled in.
unfoldable pub append_movement : StockMovement → Bool → Action StockItem StockMovement
append_movement props infer = do
  known ← gets (λ s. replay_stock (map_get (trim props.id) s.movements_by_id) props)
  elim known [ none ↦ append_new props infer | some outcome ↦ lift outcome ]
