-- ===== src/Inventory/Item/Restored.antt =====
-- That a restored stock item is as good as one that was never stored.
use cullen.Prelude.{◌≡◌, refl, subst, Option, List, [], ◌∷◌, push, ℕ, Bool, false}
use cullen.Prelude.Int.{pos, ◌≤ℤ◌}
use cullen.Prelude.Text.{Text, trim}
use cullen.Shared.Result.{Result, ok, err, >>=-eq-ok, ok_injective}
use cullen.Inventory.Movement.{StockMovement}
use cullen.Inventory.Item.State.{StockItem, Batch}
use cullen.Inventory.Item.Methods.{append_movement, stored}
use cullen.Inventory.Item.Create.{StockItemProps, create_stock_item, register_batch}
use cullen.Inventory.Item.Restore.{
  left, check_currency, restore_batches, restore_movements, restore_stock_item,
}
use cullen.Inventory.Item.Steps.{
  Accepted, register_batch-kept, append_movement-kept, new_item, created_item,
}
use cullen.Inventory.Item.Index.{
  IsIndexed, IsTraced, traced_stocked, kept-IsTraced, stored-IsTraced, unmoved-IsTraced,
  new_item-IsTraced,
}
use cullen.Inventory.Item.History.{history_balance}
use cullen.Inventory.Item.Levels.{
  IsStocked, stored-IsStocked, kept_batches, unmoved, new_item-IsStocked, stocked_total,
}

left-same : {A : Type 0} (r : Result A × StockItem) (s : StockItem) → left r ≡ ok s → r.1 ≡ s
left-same (ok a, t) s h = ok_injective h
left-same (err e, t) s h = cc

-- The rule of invariants, for restoring.
module _ (P : StockItem → Type 0) (to_upper : Text → Text)
    (keep_batch : (s : StockItem) (b : Batch) → P s → P (record s { batches = push s.batches b }))
    (keep_stored : (s : StockItem) (v : Option Text) (m : StockMovement)
      → P s
      → Accepted m s
      → P (stored v m s)) where
  restore_batches-kept :
      (bs : List Batch) (s t : StockItem) → P s → restore_batches to_upper bs s ≡ ok t → P t
  unfolding restore_batches
  restore_batches-kept [] s t v h = subst P (ok_injective h) v
  restore_batches-kept (b ∷ bs) s t v h =
      let (r, e, rest) = >>=-eq-ok (left (register_batch to_upper b s)) _ h in
      restore_batches-kept bs r t
        (subst P (left-same (register_batch to_upper b s) r e)
          (register_batch-kept P to_upper keep_batch keep_stored b s v))
        rest

  restore_movements-kept :
      (ms : List StockMovement) (s t : StockItem)
      → P s
      → restore_movements to_upper ms s ≡ ok t
      → P t
  unfolding restore_movements
  restore_movements-kept [] s t v h = subst P (ok_injective h) v
  restore_movements-kept (m ∷ ms) s t v h =
      let (r, e, rest) = >>=-eq-ok (left (append_movement m false s)) _ h in
      restore_movements-kept ms r t
        (subst P (left-same (append_movement m false s) r e)
          (append_movement-kept P to_upper keep_batch keep_stored m false s v))
        rest

  pub restored-kept :
      ((s : StockItem) (v : Option Text) → P s → P (record s { valuation_currency = v }))
      → ((s : StockItem) → P s → P (record s { events = [] }))
      → ((id product_id unit_code : Text) (scale : ℕ) (tracks : Bool)
          → P (new_item id product_id unit_code scale tracks))
      → (props : StockItemProps) (v : Option Text) (bs : List Batch) (ms : List StockMovement)
        (s : StockItem)
      → restore_stock_item to_upper props v bs ms ≡ ok s
      → P s
  unfolding restore_stock_item
  restored-kept valued quiet start props v bs ms s h =
      let (created, c, h1) = >>=-eq-ok (create_stock_item to_upper props) _ h in
      let (_, _, h2) = >>=-eq-ok (check_currency v) _ h1 in
      let (filled, b, h3) =
        >>=-eq-ok (restore_batches to_upper bs (record created { valuation_currency = v })) _ h2 in
      let (item, m, h4) = >>=-eq-ok (restore_movements to_upper ms filled) _ h3 in
      let (id, product, scale, e) = created_item to_upper props created c in
      let new =
        subst P e (start id product (to_upper (trim props.unit_code)) scale props.tracks_batches) in
      subst P (ok_injective h4) (
        quiet item (
          restore_movements-kept ms filled item
            (restore_batches-kept bs (record created { valuation_currency = v }) filled
              (valued created v new) b)
            m))

-- Whatever is restored successfully, what the item keeps of its history agrees with it, up to the
-- rounding of sums beyond the safe integers, and the exact signed sum of its movements is not negative.
pub restored_item_sound :
    (to_upper : Text → Text) (props : StockItemProps) (v : Option Text) (bs : List Batch)
    (ms : List StockMovement) (s : StockItem)
    → restore_stock_item to_upper props v bs ms ≡ ok s
    → IsIndexed s × (pos 0 ≤ℤ history_balance s.movements)
restored_item_sound to_upper props v bs ms s h =
    let i : IsTraced s =
      restored-kept IsTraced to_upper kept-IsTraced (λ s v m w a. stored-IsTraced v m s w a.fresh)
        (λ s v. unmoved-IsTraced s (record s { valuation_currency = v }) refl refl refl)
        (λ s. unmoved-IsTraced s (record s { events = [] }) refl refl refl) new_item-IsTraced props
        v bs ms s h in
    let w : IsStocked s =
      restored-kept IsStocked to_upper kept_batches stored-IsStocked
        (λ s v. unmoved s (record s { valuation_currency = v }) refl refl refl refl)
        (λ s. unmoved s (record s { events = [] }) refl refl refl refl) new_item-IsStocked props v
        bs ms s h in
    (traced_stocked s i w, stocked_total s w)
