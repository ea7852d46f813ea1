-- ===== src/Inventory/Item/Allocate.antt =====
-- stock-item.ts: `allocateForIssue`.
use cullen.Prelude.{
  Bool, true, false, not, ◌||◌, ◌&&◌, Option, none, some, List, [], ◌∷◌, ◌==◌, if◌then◌else◌,
}
use cullen.Prelude.Int.{ℤ, pos, ◌-ℤ◌, leb_ℤ, ltb_ℤ, eqb_ℤ}
use cullen.Prelude.Text.{Text, Date, invalid_date, instant, integer, max_safe_integer}
use cullen.Shared.Errors.{stock_quantity_scale_mismatch, stock_insufficient}
use cullen.Shared.Result.{Result, ok, err, ◌>>=◌, ◌>>◌, throw_if}
use cullen.Shared.Quantity.{Quantity, from_scaled}
use cullen.Inventory.Item.State.{StockItem, Batch}
use cullen.Inventory.Item.Methods.{balance_for_batch}

-- What one batch gives to an issue.
pub record Allocation : Type 0 where
  pub batch_id : Option Text
  pub quantity : Quantity

-- `expiresAt?.getTime() ?? Number.MAX_SAFE_INTEGER`. The date of a batch is valid.
abbrev pub expiry : Option Date → ℤ
expiry none = pos max_safe_integer
expiry (some invalid_date) = pos max_safe_integer
expiry (some (instant ms)) = ms

-- `Math.min`
abbrev pub min_ℤ : ℤ → ℤ → ℤ
min_ℤ a b = if leb_ℤ a b then a else b

-- The loop over the sorted batches.
unfoldable pub allocate_from : List Batch → ℤ → StockItem → Result (List Allocation)
allocate_from [] remaining s = err stock_insufficient
allocate_from (b ∷ bs) remaining s = do
  available ← balance_for_batch b.id s
  let used = min_ℤ available.scaled_value remaining
  elim (leb_ℤ available.scaled_value (pos 0)) [
    | true ↦ allocate_from bs remaining s
    | false ↦ do
      quantity ← from_scaled (integer used) (integer (pos s.quantity_scale))
      elim (eqb_ℤ (remaining -ℤ used) (pos 0)) [
        | true ↦ ok (record { batch_id = some b.id; quantity = quantity } ∷ [])
        | false ↦ do
          rest ← allocate_from bs (remaining -ℤ used) s
          ok (record { batch_id = some b.id; quantity = quantity } ∷ rest)
      ]
  ]

-- `String.prototype.localeCompare`, whose collation the model does not hold: whether it is at most 0.
module _ (locale_le : Text → Text → Bool) where
  -- The order in which batches are used: by expiry, then by lot number.
  unfoldable pub batch_le : Batch → Batch → Bool
  batch_le a b =
      ltb_ℤ (expiry a.expires_at) (expiry b.expires_at)
      || (eqb_ℤ (expiry a.expires_at) (expiry b.expires_at) && locale_le a.lot_number b.lot_number)

  unfoldable pub insert_batch : Batch → List Batch → List Batch
  unfolding batch_le
  insert_batch b [] = b ∷ []
  insert_batch b (x ∷ xs) = if batch_le b x then b ∷ x ∷ xs else x ∷ insert_batch b xs

  -- A stable sort of the batches.
  unfoldable pub sort_batches : List Batch → List Batch
  unfolding insert_batch
  sort_batches [] = []
  sort_batches (x ∷ xs) = insert_batch x (sort_batches xs)

  -- `allocateForIssue`
  unfoldable pub allocate_for_issue : Quantity → StockItem → Result (List Allocation)
  unfolding sort_batches
  allocate_for_issue quantity s = do
    throw_if (not (quantity.scale == s.quantity_scale)) stock_quantity_scale_mismatch
    if not s.tracks_batches
        then ok (record { batch_id = none; quantity = quantity } ∷ [])
        else allocate_from (sort_batches s.batches) quantity.scaled_value s
