-- ===== src/Inventory/Item/Restore.antt =====
-- stock-item.ts: `StockItem.restore`.
use cullen.Prelude.{false, Option, none, some, List, [], ◌∷◌}
use cullen.Prelude.Text.{Text}
use cullen.Shared.Result.{Result, ok, err, ◌>>=◌, ◌>>◌}
use cullen.Shared.Money.{zero_money}
use cullen.Inventory.Movement.{StockMovement}
use cullen.Inventory.Item.State.{StockItem, Batch}
use cullen.Inventory.Item.Methods.{append_movement}
use cullen.Inventory.Item.Create.{StockItemProps, create_stock_item, register_batch}

-- The check of the constructor.
abbrev pub check_currency : Option Text → Result (Unit {0})
check_currency none = ok tt
check_currency (some c) = do zero_money c; ok tt

-- What an action that must succeed leaves.
abbrev pub left : {A : Type 0} → Result A × StockItem → Result StockItem
left (ok a, s) = ok s
left (err e, s) = err e

module _ (to_upper : Text → Text) where
  unfoldable pub restore_batches : List Batch → StockItem → Result StockItem
  unfolding register_batch
  restore_batches [] s = ok s
  restore_batches (b ∷ bs) s = do t ← left (register_batch to_upper b s); restore_batches bs t

  unfoldable pub restore_movements : List StockMovement → StockItem → Result StockItem
  unfolding append_movement
  restore_movements [] s = ok s
  restore_movements (m ∷ ms) s = do t ← left (append_movement m false s); restore_movements ms t

  -- `StockItem.restore`
  unfoldable pub restore_stock_item :
      StockItemProps → Option Text → List Batch → List StockMovement → Result StockItem
  unfolding create_stock_item restore_batches restore_movements
  restore_stock_item props valuation_currency batches movements = do
    created ← create_stock_item to_upper props
    check_currency valuation_currency
    with_batches ←
        restore_batches batches (record created { valuation_currency = valuation_currency })
    item ← restore_movements movements with_batches
    ok (record item { events = [] })
