-- ===== src/Tests/Stock.antt =====
-- The theorems on stock, applied.
use cullen.Prelude.{Bool, arith, ◌≡◌, refl, true, false, none, some, [], ◌∷◌}
use cullen.Prelude.Int.{pos, ◌≤ℤ◌}
use cullen.Prelude.Text.{Text, codes, eqb, trim, trim_start, is_space, integer}
use cullen.Shared.Errors.{stock_sale_issue_conflict}
use cullen.Shared.Result.{err, require_text}
use cullen.Inventory.Maps.{map_get}
use cullen.Inventory.Movement.{StockMovement, purchase_receipt, sale_issue}
use cullen.Inventory.Item.{
  StockItem, StockItemProps, create_stock_item, is_unit_code, append_movement, after_calls,
  movement_call, balance_for_batch, calculate_balance, allocate_for_issue,
}
use cullen.Inventory.Item.Index.{IsIndexed, index_reflects_history, costless_issue_conflicts}
use cullen.Inventory.Item.History.{history_balance, batch_balance}
use cullen.Inventory.Item.Levels.{stock_never_negative}
use cullen.Inventory.Item.Fefo.{Outcome, allocation_exact}
use cullen.Shared.Quantity.{from_scaled}
use cullen.Tests.Values.{dollars, pieces, monday, tuesday}

-- The mapping to upper case of a text that is in upper case.
abbrev same_case : Text → Text
same_case t = t

abbrev item_props : StockItemProps
item_props = record {
  id = codes "k1";
  product_id = codes "p1";
  unit_code = codes "UND";
  quantity_scale = integer (pos 0);
  tracks_batches = false;
}

abbrev empty_item : StockItem
empty_item = record {
  id = codes "k1";
  product_id = codes "p1";
  unit_code = codes "UND";
  quantity_scale = 0;
  tracks_batches = false;
  valuation_currency = none;
  batches = [];
  movements = [];
  events = [];
  movements_by_id = [];
  movement_event_ids = [];
  cost_currencies = [];
  balance_scaled = pos 0;
  batch_balances_scaled = [];
}

abbrev receipt : StockMovement
receipt = record {
  id = codes "m1";
  type = purchase_receipt;
  quantity = pieces 10;
  batch_id = none;
  actor_id = codes "ana";
  reason = codes "purchase";
  reference_id = codes "b1";
  occurred_at = monday;
  event_id = codes "e1";
  unit_cost = some (dollars 250);
}

abbrev issue : StockMovement
issue = record receipt {
  id = codes "m2";
  type = sale_issue;
  quantity = pieces 3;
  event_id = codes "e2";
  unit_cost = none;
}

abbrev stocked_item : StockItem
stocked_item = record empty_item {
  movements = issue ∷ [];
  movements_by_id = (codes "m2", issue) ∷ [];
}

index_reflects_history_example :
    IsIndexed (
      after_calls same_case
        (movement_call receipt true ∷ movement_call issue false ∷ [])
        empty_item)
unfolding create_stock_item require_text trim trim_start is_space is_unit_code
index_reflects_history_example =
    index_reflects_history same_case item_props empty_item
      (movement_call receipt true ∷ movement_call issue false ∷ []) refl

costless_issue_conflicts_example :
    append_movement issue false stocked_item ≡ (err stock_sale_issue_conflict, stocked_item)
unfolding map_get trim trim_start is_space eqb
costless_issue_conflicts_example =
    costless_issue_conflicts issue issue false stocked_item refl refl refl refl

stock_never_negative_example :
    (pos 0
      ≤ℤ history_balance
          (after_calls same_case
            (movement_call receipt true ∷ movement_call issue false ∷ [])
            empty_item).movements)
    × ((b : Text)
        → pos 0
          ≤ℤ batch_balance b
              (after_calls same_case
                (movement_call receipt true ∷ movement_call issue false ∷ [])
                empty_item).movements)
unfolding create_stock_item require_text trim trim_start is_space is_unit_code
stock_never_negative_example =
    stock_never_negative same_case item_props empty_item
      (movement_call receipt true ∷ movement_call issue false ∷ []) refl

-- An order of texts that takes any two as they stand.
abbrev any_order : Text → Text → Bool
any_order s t = true

-- Milk in two batches: five pieces that expire on Tuesday and three that expire on Monday.
abbrev milk : StockItem
milk = record empty_item {
  tracks_batches = true;
  batches =
      record { id = codes "b1"; lot_number = codes "L1"; expires_at = some tuesday }
      ∷ record { id = codes "b2"; lot_number = codes "L2"; expires_at = some monday }
      ∷ [];
  balance_scaled = pos 8;
  batch_balances_scaled = (codes "b1", pos 5) ∷ (codes "b2", pos 3) ∷ [];
}

allocation_exact_example :
    Outcome milk milk.batches (pos 6) (allocate_for_issue any_order (pieces 6) milk)
unfolding balance_for_batch calculate_balance from_scaled map_get eqb trim trim_start is_space
allocation_exact_example =
    allocation_exact any_order (pieces 6) milk refl refl (omega arith)
      ((pieces 5, refl), ((pieces 3, refl), tt))
