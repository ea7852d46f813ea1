-- ===== src/Inventory/Item/Levels.antt =====
-- That the stock never falls below zero.
use cullen.Prelude.{
  ℕ, ◌≡◌, refl, sym, ap, subst, ◌∙◌, inl, inr, Bool, true, false, Option, some, List, [], All, push,
  arith, Bool-cases,
}
use cullen.Prelude.Int.{pos, ◌+ℤ◌, ◌≤ℤ◌}
use cullen.Prelude.Text.{Text}
use cullen.Shared.Result.{ok}
use cullen.Inventory.Maps.{map_get}
use cullen.Inventory.Movement.{StockMovement}
use cullen.Inventory.Item.State.{StockItem, Batch, signed, or_zero}
use cullen.Inventory.Item.Methods.{stored, index, batches_with}
use cullen.Inventory.Item.Create.{StockItemProps, create_stock_item, StockCall, after_calls}
use cullen.Inventory.Item.Steps.{Accepted, reachable-kept, new_item}
use cullen.Inventory.Item.History.{
  history_balance, batch_balance, history_balance-push, exact_with, exact, exact-push, exact-get,
}
use cullen.Prelude.Double.{add_numbers}
use cullen.Prelude.Double.Rounding.{Agrees}
use cullen.Inventory.Item.Sums.{
  sum_values, IsPositive, sum_values-set, All-set, get-positive, sum_values-positive,
  batches_with-Agrees,
}
use cullen.Inventory.Item.Covers.{
  created_positive, created_batch, tracked_batch, untracked_batch, covered_batch, covered_whole,
  signed_keeps,
}

-- The exact balances of the batches add up to the item's, and none is negative; an item that tracks no
-- batches has no negative balance itself. The balances that are kept agree with the exact ones.
pub record IsStocked (s : StockItem) : Type 0 where
  pub split : s.tracks_batches ≡ true → history_balance s.movements ≡ sum_values (exact s.movements)
  pub batches : s.tracks_batches ≡ true → All IsPositive (exact s.movements)
  pub whole : s.tracks_batches ≡ false → pos 0 ≤ℤ history_balance s.movements
  pub plain : s.tracks_batches ≡ false → exact s.movements ≡ []
  pub whole_read : s.tracks_batches ≡ false → Agrees s.balance_scaled (history_balance s.movements)
  pub batch_read :
      (b : Text)
      → Agrees
          (or_zero (map_get b s.batch_balances_scaled))
          (or_zero (map_get b (exact s.movements)))

batch_update :
    (s : StockItem) (m : StockMovement) (b : Text)
    → IsStocked s
    → Accepted m s
    → s.tracks_batches ≡ true
    → m.batch_id ≡ some b
    → (pos 0 ≤ℤ or_zero (map_get b (exact s.movements)) +ℤ signed m)
      × Agrees
          (add_numbers (or_zero (map_get b s.batch_balances_scaled)) (signed m))
          (or_zero (map_get b (exact s.movements)) +ℤ signed m)
batch_update s m b w a t e =
    signed_keeps m (or_zero (map_get b s.batch_balances_scaled))
      (or_zero (map_get b (exact s.movements))) (created_positive a.props m a.created)
      (w.batch_read b) (get-positive b (exact s.movements) (w.batches t))
      (covered_batch m s b a.covered e (created_batch a.props m b a.created e))

read_update :
    (s : StockItem) (m : StockMovement) (b : Text)
    → IsStocked s
    → Accepted m s
    → m.batch_id ≡ some b
    → Agrees
        (add_numbers (or_zero (map_get b s.batch_balances_scaled)) (signed m))
        (or_zero (map_get b (exact s.movements)) +ℤ signed m)
read_update s m b w a e = elim (Bool-cases s.tracks_batches) [
  | inl t ↦ (batch_update s m b w a t e).1
  | inr t ↦ absurd (cc (e, untracked_batch m s a.policy t))
]

whole_update :
    (s : StockItem) (m : StockMovement)
    → IsStocked s
    → Accepted m s
    → s.tracks_batches ≡ false
    → (pos 0 ≤ℤ history_balance (push s.movements m))
      × Agrees (add_numbers s.balance_scaled (signed m)) (history_balance (push s.movements m))
whole_update s m w a t = rw (history_balance-push s.movements m) (
    signed_keeps m s.balance_scaled (history_balance s.movements)
      (created_positive a.props m a.created) (w.whole_read t) (w.whole t)
      (covered_whole m s a.covered (untracked_batch m s a.policy t)))

pub stored-IsStocked :
    (s : StockItem) (v : Option Text) (m : StockMovement)
    → IsStocked s
    → Accepted m s
    → IsStocked (stored v m s)
unfolding stored index
stored-IsStocked s v m w a = record {
  split = λ t.
      let (b, e) = tracked_batch m s a.policy t in
      history_balance-push s.movements m
      ∙ ap (λ z. z +ℤ signed m) (w.split t)
      ∙ sym (sum_values-set b (signed m) (exact s.movements))
      ∙ ap (λ o. sum_values (exact_with o (signed m) (exact s.movements))) (sym e)
      ∙ ap sum_values (sym (exact-push s.movements m));
  batches = λ t.
      let (b, e) = tracked_batch m s a.policy t in
      subst (All IsPositive) (sym (exact-push s.movements m)) (
        subst (λ o. All IsPositive (exact_with o (signed m) (exact s.movements))) (sym e)
          (All-set b (or_zero (map_get b (exact s.movements)) +ℤ signed m) (exact s.movements)
            (w.batches t) (batch_update s m b w a t e).0));
  whole = λ t. (whole_update s m w a t).0;
  plain = λ t.
      exact-push s.movements m
      ∙ ap (λ o. exact_with o (signed m) (exact s.movements)) (untracked_batch m s a.policy t)
      ∙ w.plain t;
  whole_read = λ t. (whole_update s m w a t).1;
  batch_read = λ b.
      subst
        (λ es.
          Agrees (or_zero (map_get b (batches_with m.batch_id (signed m) s.batch_balances_scaled)))
            (or_zero (map_get b es)))
        (sym (exact-push s.movements m))
        (batches_with-Agrees m.batch_id (signed m) s.batch_balances_scaled (exact s.movements) b
          (w.batch_read b) (λ c e. read_update s m c w a e));
}

-- What the balances are about is left alone.
pub unmoved :
    (s t : StockItem)
    → t.tracks_batches ≡ s.tracks_batches
    → t.movements ≡ s.movements
    → t.balance_scaled ≡ s.balance_scaled
    → t.batch_balances_scaled ≡ s.batch_balances_scaled
    → IsStocked s
    → IsStocked t
unmoved s t k m b bs w = record {
  split = λ h. rw m (w.split (sym k ∙ h));
  batches = λ h. rw m (w.batches (sym k ∙ h));
  whole = λ h. rw m (w.whole (sym k ∙ h));
  plain = λ h. rw m (w.plain (sym k ∙ h));
  whole_read = λ h. rw (m, b) (w.whole_read (sym k ∙ h));
  batch_read = λ c. rw (m, bs) (w.batch_read c);
}

pub kept_batches :
    (s : StockItem) (b : Batch) → IsStocked s → IsStocked (record s { batches = push s.batches b })
kept_batches s b = unmoved s (record s { batches = push s.batches b }) refl refl refl refl

pub new_item-IsStocked :
    (id product_id unit_code : Text) (scale : ℕ) (tracks : Bool)
    → IsStocked (new_item id product_id unit_code scale tracks)
unfolding map_get
new_item-IsStocked id product_id unit_code scale tracks = record {
  split = λ t. refl;
  batches = λ t. tt;
  whole = λ t. omega arith;
  plain = λ t. refl;
  whole_read = λ t. inl refl;
  batch_read = λ b. inl refl;
}

pub after_calls-IsStocked :
    (to_upper : Text → Text) (props : StockItemProps) (s : StockItem) (cs : List StockCall)
    → create_stock_item to_upper props ≡ ok s
    → IsStocked (after_calls to_upper cs s)
after_calls-IsStocked to_upper =
    reachable-kept IsStocked to_upper kept_batches stored-IsStocked new_item-IsStocked

stocked_batch : (s : StockItem) (b : Text) → IsStocked s → pos 0 ≤ℤ batch_balance b s.movements
unfolding map_get
stocked_batch s b w =
    subst (λ z. pos 0 ≤ℤ z) (exact-get b s.movements)
      (elim (Bool-cases s.tracks_batches) [
        | inl t ↦ get-positive b (exact s.movements) (w.batches t)
        | inr t ↦ subst (λ bs. pos 0 ≤ℤ or_zero (map_get b bs)) (sym (w.plain t)) (omega arith)
      ])

pub stocked_total : (s : StockItem) → IsStocked s → pos 0 ≤ℤ history_balance s.movements
stocked_total s w = elim (Bool-cases s.tracks_batches) [
  | inl t ↦
      subst (λ z. pos 0 ≤ℤ z) (sym (w.split t))
        (sum_values-positive (exact s.movements) (w.batches t))
  | inr t ↦ w.whole t
]

-- Whatever batches and movements are registered on a new item, successfully or not, the signed sum of the
-- movements that it has accepted is never negative, and neither is the signed sum of the
-- movements of any one batch.
pub stock_never_negative :
    (to_upper : Text → Text) (props : StockItemProps) (s : StockItem) (cs : List StockCall)
    → create_stock_item to_upper props ≡ ok s
    → (pos 0 ≤ℤ history_balance (after_calls to_upper cs s).movements)
      × ((b : Text) → pos 0 ≤ℤ batch_balance b (after_calls to_upper cs s).movements)
stock_never_negative to_upper props s cs h =
    let w = after_calls-IsStocked to_upper props s cs h in
    (
      stocked_total (after_calls to_upper cs s) w,
      λ b. stocked_batch (after_calls to_upper cs s) b w,
    )
