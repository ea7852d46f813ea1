-- ===== src/Inventory/Item/Index.antt =====
-- That what a stock item keeps of its history is what the history says.
use cullen.Prelude.{
  ◌≡◌, refl, sym, ap, subst, ◌∙◌, ◌⊎◌, inl, inr, ℕ, Bool, true, false, Bool-cases, Option, none,
  some, List, [], ◌∷◌, find?, push, arith, if◌then◌else◌,
}
use cullen.Prelude.Int.{◌+ℤ◌}
use cullen.Prelude.Double.{to_double, add_numbers}
use cullen.Prelude.Double.Rounding.{Agrees, to_double-safe}
use cullen.Inventory.Item.History.{
  history_balance, batch_balance, history_balance-push, exact-get, is_ever_unsafe, safe-push,
}
use cullen.Inventory.Item.Levels.{IsStocked, after_calls-IsStocked}
use cullen.Prelude.Text.{Text, eqb, eqb→eq, eqb_refl, trim}
use cullen.Shared.Errors.{stock_sale_issue_conflict}
use cullen.Shared.Result.{ok, err}
use cullen.Inventory.Maps.{map_get, get-set}
use cullen.Inventory.Movement.{StockMovement, sale_issue, stock_matches}
use cullen.Inventory.Item.Create.{StockItemProps, create_stock_item, StockCall, after_calls}
use cullen.Inventory.Item.Steps.{reachable-kept, new_item}
use cullen.Inventory.Item.State.{StockItem, Batch, signed, or_zero}
use cullen.Inventory.Item.Methods.{append_movement, replay_stock, stored, index}

-- What a stock item keeps agrees with its movements, where rounding leaves it exact.
pub record IsIndexed (s : StockItem) : Type 0 where
  pub by_id : (id : Text) → map_get id s.movements_by_id ≡ find? (λ m. eqb m.id id) s.movements
  pub total : (s.balance_scaled ≡ history_balance s.movements) ⊎ (is_ever_unsafe s.movements ≡ true)
  pub whole : s.tracks_batches ≡ false → Agrees s.balance_scaled (history_balance s.movements)
  pub by_batch :
      (b : Text)
      → Agrees (or_zero (map_get b s.batch_balances_scaled)) (batch_balance b s.movements)

-- The part that concerns every item alike.
pub record IsTraced (s : StockItem) : Type 0 where
  pub by_id : (id : Text) → map_get id s.movements_by_id ≡ find? (λ m. eqb m.id id) s.movements
  pub total : (s.balance_scaled ≡ history_balance s.movements) ⊎ (is_ever_unsafe s.movements ≡ true)

pub traced_stocked : (s : StockItem) → IsTraced s → IsStocked s → IsIndexed s
traced_stocked s i w = record {
  by_id = i.by_id;
  total = i.total;
  whole = w.whole_read;
  by_batch = λ b.
      subst (λ z. Agrees (or_zero (map_get b s.batch_balances_scaled)) z) (exact-get b s.movements)
        (w.batch_read b);
}

find?-push :
    (id : Text) (ms : List StockMovement) (m : StockMovement)
    → find? (λ x. eqb x.id m.id) ms ≡ none
    → find? (λ x. eqb x.id id) (push ms m)
      ≡ (if eqb m.id id then some m else find? (λ x. eqb x.id id) ms)
find?-push id [] m h = refl
find?-push id (x ∷ ms) m h =
    ground (arith, find?-push id ms m, eqb→eq m.id id, eqb→eq x.id id, eqb_refl id, eqb_refl m.id)

-- The running balance after a movement.
total_update :
    (s : StockItem) (m : StockMovement)
    → IsTraced s
    → (add_numbers s.balance_scaled (signed m) ≡ history_balance (push s.movements m))
      ⊎ (is_ever_unsafe (push s.movements m) ≡ true)
unfolding add_numbers
total_update s m w = elim (Bool-cases (is_ever_unsafe (push s.movements m))) [
  | inl unsafe ↦ inr unsafe
  | inr safe ↦
      let (before, now) = safe-push s.movements m safe in
      elim w.total [
        | inl e ↦ inl (
            ap (λ z. to_double (z +ℤ signed m)) e
            ∙ to_double-safe (history_balance s.movements +ℤ signed m) now
            ∙ sym (history_balance-push s.movements m))
        | inr unsafe ↦ absurd (cc (unsafe, before))
      ]
]

pub stored-IsTraced :
    (v : Option Text) (m : StockMovement) (s : StockItem)
    → IsTraced s
    → map_get m.id s.movements_by_id ≡ none
    → IsTraced (stored v m s)
unfolding stored index
stored-IsTraced v m s w h = record {
  by_id = λ id.
      get-set id m.id m s.movements_by_id
      ∙ ap (λ o. if eqb m.id id then some m else o) (w.by_id id)
      ∙ sym (find?-push id s.movements m (sym (w.by_id m.id) ∙ h));
  total = total_update s m w;
}

pub unmoved-IsTraced :
    (s t : StockItem)
    → t.movements_by_id ≡ s.movements_by_id
    → t.movements ≡ s.movements
    → t.balance_scaled ≡ s.balance_scaled
    → IsTraced s
    → IsTraced t
unmoved-IsTraced s t i m b w = record {
  by_id = λ id. rw (i, m) (w.by_id id);
  total = rw (m, b) w.total;
}

pub kept-IsTraced :
    (s : StockItem) (b : Batch) → IsTraced s → IsTraced (record s { batches = push s.batches b })
kept-IsTraced s b = unmoved-IsTraced s (record s { batches = push s.batches b }) refl refl refl

pub new_item-IsTraced :
    (id product_id unit_code : Text) (scale : ℕ) (tracks : Bool)
    → IsTraced (new_item id product_id unit_code scale tracks)
unfolding map_get
new_item-IsTraced id product_id unit_code scale tracks = record {
  by_id = λ id. refl;
  total = inl refl;
}

-- Whatever batches and movements are registered on a new item, successfully or not, what it stores about
-- its history agrees with it: looking an identifier up in the index gives what a search of the
-- history gives; the running balance is the signed sum of all movements, unless the sum of some
-- first movements is no safe integer; and the balance of each batch, and that of an item that
-- tracks none, is the signed sum of its movements, or both are from 2 ^ 53 on.
pub index_reflects_history :
    (to_upper : Text → Text) (props : StockItemProps) (s : StockItem) (cs : List StockCall)
    → create_stock_item to_upper props ≡ ok s
    → IsIndexed (after_calls to_upper cs s)
index_reflects_history to_upper props s cs h =
    traced_stocked (after_calls to_upper cs s)
      (reachable-kept IsTraced to_upper kept-IsTraced (λ s v m w a. stored-IsTraced v m s w a.fresh)
        new_item-IsTraced props s cs h)
      (after_calls-IsStocked to_upper props s cs h)

-- A sale issue that was stored without a cost cannot be replayed: any later sale issue under its
-- identifier, the identical one too, throws a conflict and changes nothing.
pub costless_issue_conflicts :
    (props m : StockMovement) (infer : Bool) (s : StockItem)
    → map_get (trim props.id) s.movements_by_id ≡ some m
    → m.type ≡ sale_issue
    → props.type ≡ sale_issue
    → m.unit_cost ≡ none
    → append_movement props infer s ≡ (err stock_sale_issue_conflict, s)
unfolding append_movement replay_stock stock_matches
costless_issue_conflicts props m infer s h t u c = ground arith
