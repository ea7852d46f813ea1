-- ===== src/Inventory/Item/Covers.antt =====
-- What the checks of a movement say, and the balance after one that they let through.
use cullen.Prelude.{
  ◌≡◌, ap, subst, inl, inr, true, false, none, some, arith, Bool-cases, Option-cases,
}
use cullen.Prelude.Int.{ℤ, pos, ◌+ℤ◌, ◌≤ℤ◌, int_laws}
use cullen.Prelude.Text.{Text, trim, is_safe}
use cullen.Prelude.Text.Trim.{trim_idem}
use cullen.Shared.Result.{ok, require_text}
use cullen.Shared.Quantity.{from_scaled}
use cullen.Inventory.Maps.{map_get}
use cullen.Inventory.Movement.{StockMovement, create_stock_movement, is_incoming}
use cullen.Inventory.Item.State.{StockItem, signed, or_zero, calculate_balance}
use cullen.Inventory.Item.Methods.{assert_batch_policy, assert_available, balance_for_batch}
use cullen.Prelude.Double.{add_numbers}
use cullen.Prelude.Double.Rounding.{Agrees, safe-Agrees, add_numbers-Agrees}

-- What the checks of a movement say.
pub created_positive :
    (p m : StockMovement) → create_stock_movement p ≡ ok m → pos 1 ≤ℤ m.quantity.scaled_value
unfolding create_stock_movement
created_positive p m h = ground arith

pub created_batch :
    (p m : StockMovement) (b : Text)
    → create_stock_movement p ≡ ok m
    → m.batch_id ≡ some b
    → trim b ≡ b
unfolding create_stock_movement require_text
created_batch p m b h e = elim (Option-cases p.batch_id) [
  | inl n ↦ ground (arith, n)
  | inr (x, f) ↦ ground (arith, f, trim_idem x)
]

pub tracked_batch :
    (m : StockMovement) (s : StockItem)
    → assert_batch_policy m s ≡ ok tt
    → s.tracks_batches ≡ true
    → (b : Text) × (m.batch_id ≡ some b)
unfolding assert_batch_policy
tracked_batch m s h t = elim (Option-cases m.batch_id) [
  | inl n ↦ absurd (ground (arith, n))
  | inr (b, e) ↦ (b, e)
]

pub untracked_batch :
    (m : StockMovement) (s : StockItem)
    → assert_batch_policy m s ≡ ok tt
    → s.tracks_batches ≡ false
    → m.batch_id ≡ none
unfolding assert_batch_policy
untracked_batch m s h t = ground arith

-- A balance that covers a movement.
abbrev pub Covers : ℤ → StockMovement → Type 0
Covers a m = (is_safe a ≡ true) × (m.quantity.scaled_value ≤ℤ a)

-- An outgoing movement takes no more than the balance of its batch, or of the item.
pub covered_batch :
    (m : StockMovement) (s : StockItem) (b : Text)
    → assert_available m s ≡ ok tt
    → m.batch_id ≡ some b
    → trim b ≡ b
    → is_incoming m.type ≡ false
    → Covers (or_zero (map_get b s.batch_balances_scaled)) m
unfolding assert_available balance_for_batch calculate_balance from_scaled
covered_batch m s b h e t out = ground (arith, ap (λ k. map_get k s.batch_balances_scaled) t)

pub covered_whole :
    (m : StockMovement) (s : StockItem)
    → assert_available m s ≡ ok tt
    → m.batch_id ≡ none
    → is_incoming m.type ≡ false
    → Covers s.balance_scaled m
unfolding assert_available calculate_balance from_scaled
covered_whole m s h e out = ground arith

-- The exact balance after a movement that the kept one covers, and that the kept one agrees with it.
pub signed_keeps :
    (m : StockMovement) (a b : ℤ)
    → pos 1 ≤ℤ m.quantity.scaled_value
    → Agrees a b
    → pos 0 ≤ℤ b
    → (is_incoming m.type ≡ false → Covers a m)
    → (pos 0 ≤ℤ b +ℤ signed m) × Agrees (add_numbers a (signed m)) (b +ℤ signed m)
signed_keeps m a b lo g h out = elim (Bool-cases (is_incoming m.type)) [
  | inl i ↦
      let up : pos 0 ≤ℤ signed m = rw i (omega (int_laws, lo)) in
      let k : pos 0 ≤ℤ b +ℤ signed m = omega (int_laws, up, h) in
      (k, add_numbers-Agrees a b (signed m) g k (inl up))
  | inr o ↦
      let (safe, le) = out o in
      let same : a ≡ b = safe-Agrees a b g safe in
      let fits : m.quantity.scaled_value ≤ℤ b = subst (λ c. m.quantity.scaled_value ≤ℤ c) same le in
      let k : pos 0 ≤ℤ b +ℤ signed m = rw o (omega (int_laws, fits)) in
      (k, add_numbers-Agrees a b (signed m) g k (inr safe))
]
