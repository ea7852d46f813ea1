-- ===== src/Inventory/Item/Steps.antt =====
-- How calls change a stock item: the cases of `appendMovement`, and the rule for invariants.
use cullen.Prelude.{
  ℕ, ◌≡◌, ap, subst, ◌∙◌, ◌⊎◌, inl, inr, Bool, not, Option, none, List, [], ◌∷◌, push, any, ◌==◌,
  Option-cases, Bool-cases, arith,
}
use cullen.Prelude.Int.{pos}
use cullen.Prelude.Text.{Text, eqb, trim}
use cullen.Shared.Errors.{
  stock_item_id_required, stock_product_id_required, stock_unit_code_invalid,
}
use cullen.Shared.Result.{ok, Result-cases, >>=-eq-ok, ok_injective, require_text, throw_if}
use cullen.Shared.Money.{Money}
use cullen.Inventory.Maps.{map_get}
use cullen.Inventory.Movement.{StockMovement, create_stock_movement}
use cullen.Inventory.Item.State.{StockItem, Batch}
use cullen.Inventory.Item.Methods.{
  append_movement, append_new, replay_stock, stored, valuation_after, cost_of, assert_batch_policy,
  assert_available,
}
use cullen.Inventory.Item.Create.{
  StockItemProps, create_stock_item, is_unit_code, scale_upto_six, batch_for, register_batch,
  StockCall, batch_call, movement_call, after_calls,
}

-- What is known of a movement that an item stores.
pub record Accepted (m : StockMovement) (s : StockItem) : Type 0 where
  pub props : StockMovement
  pub created : create_stock_movement props ≡ ok m
  pub fresh : map_get m.id s.movements_by_id ≡ none
  pub policy : assert_batch_policy m s ≡ ok tt
  pub covered : assert_available m s ≡ ok tt

create-id : (p m : StockMovement) → create_stock_movement p ≡ ok m → m.id ≡ trim p.id
unfolding create_stock_movement require_text
create-id p m h = ground arith

-- After a call the item is as before, or has stored an accepted movement.
abbrev Stepped : StockItem → StockItem → Type 0
Stepped s e =
    (s ≡ e) ⊎ ((v : Option Text) × (m : StockMovement) × Accepted m s × (stored v m s ≡ e))

module _ (props : StockMovement) (infer : Bool) (s : StockItem) where
  -- A movement that passed every check is stored.
  accepted-Stepped :
      (v : Option Text) (c : Option Money) (m : StockMovement)
      → valuation_after props.unit_cost s ≡ ok v
      → cost_of props infer s ≡ ok c
      → create_stock_movement (record props { unit_cost = c }) ≡ ok m
      → map_get (trim props.id) s.movements_by_id ≡ none
      → Stepped s (append_new props infer s).1
  unfolding append_new
  accepted-Stepped v c m f g k new =
      elim (Bool-cases (any (eqb (trim props.event_id)) s.movement_event_ids)) [
        | inl dup ↦ inl (ground (arith, dup))
        | inr first ↦ elim (Bool-cases (m.quantity.scale == s.quantity_scale)) [
          | inr other ↦ inl (ground (arith, first, f, g, k, other))
          | inl same ↦ elim (Result-cases (assert_batch_policy m s)) [
            | inr (x, a) ↦ inl (ground (arith, first, f, g, k, same, a))
            | inl (u, a) ↦ elim (Result-cases (assert_available m s)) [
              | inr (x, b) ↦ inl (ground (arith, first, f, g, k, same, a, b))
              | inl (u', b) ↦ inr (
                v,
                m,
                record {
                  props = record props { unit_cost = c };
                  created = k;
                  fresh =
                      ap (λ i. map_get i s.movements_by_id)
                        (create-id (record props { unit_cost = c }) m k)
                      ∙ new;
                  policy = a;
                  covered = b;
                },
                ground (arith, first, f, g, k, same, a, b),
              )
            ]
          ]
        ]
      ]

  append_new-Stepped :
      map_get (trim props.id) s.movements_by_id ≡ none → Stepped s (append_new props infer s).1
  unfolding append_new
  append_new-Stepped new = elim (Result-cases (valuation_after props.unit_cost s)) [
    | inr (x, f) ↦ inl (ground (arith, f))
    | inl (v, f) ↦ elim (Result-cases (cost_of props infer s)) [
      | inr (x, g) ↦ inl (ground (arith, f, g))
      | inl (c, g) ↦ elim (Result-cases (create_stock_movement (record props { unit_cost = c }))) [
        | inr (x, k) ↦ inl (ground (arith, f, g, k))
        | inl (m, k) ↦ accepted-Stepped v c m f g k new
      ]
    ]
  ]

  append_movement-Stepped : Stepped s (append_movement props infer s).1
  unfolding append_movement replay_stock
  append_movement-Stepped = elim (Option-cases (map_get (trim props.id) s.movements_by_id)) [
    | inl new ↦
        let e : append_new props infer s ≡ append_movement props infer s = ground (arith, new) in
        subst (λ r. Stepped s r.1) e (append_new-Stepped new)
    | inr (m, old) ↦ inl (ground (arith, old))
  ]

-- The item that `create` makes.
abbrev pub new_item : Text → Text → Text → ℕ → Bool → StockItem
new_item id product_id unit_code quantity_scale tracks_batches = record {
  id = id;
  product_id = product_id;
  unit_code = unit_code;
  quantity_scale = quantity_scale;
  tracks_batches = tracks_batches;
  valuation_currency = none;
  batches = [];
  movements = [];
  events = [];
  movements_by_id = [];
  movement_event_ids = [];
  cost_currencies = [];
  balance_scaled = pos 0;
  batch_balances_scaled = [];
}

pub created_item :
    (to_upper : Text → Text) (props : StockItemProps) (s : StockItem)
    → create_stock_item to_upper props ≡ ok s
    → (id : Text) × (product : Text) × (scale : ℕ) × (new_item id product
          (to_upper (trim props.unit_code))
          scale
          props.tracks_batches
        ≡ s)
unfolding create_stock_item
created_item to_upper props s h =
    let (id, _, h1) = >>=-eq-ok (require_text props.id stock_item_id_required) _ h in
    let (product, _, h2) =
      >>=-eq-ok (require_text props.product_id stock_product_id_required) _ h1 in
    let (_, _, h3) =
      >>=-eq-ok
        (throw_if (not (is_unit_code (to_upper (trim props.unit_code)))) stock_unit_code_invalid) _
        h2 in
    let (scale, _, h4) = >>=-eq-ok (scale_upto_six props.quantity_scale) _ h3 in
    (id, product, scale, ok_injective h4)

-- The rule for invariants: what holds of a new item, and is kept when a batch is added and when an
-- accepted movement is stored, holds after any calls, whether they succeed or not.
module _ (P : StockItem → Type 0) (to_upper : Text → Text)
    (keep_batch : (s : StockItem) (b : Batch) → P s → P (record s { batches = push s.batches b }))
    (keep_stored : (s : StockItem) (v : Option Text) (m : StockMovement)
      → P s
      → Accepted m s
      → P (stored v m s)) where
  pub register_batch-kept : (b : Batch) (s : StockItem) → P s → P (register_batch to_upper b s).1
  unfolding register_batch
  register_batch-kept b s w = elim (Result-cases (batch_for to_upper b s)) [
    | inl (x, f) ↦ ground (arith, f, keep_batch s x w)
    | inr (e, f) ↦ ground (arith, f, w)
  ]

  pub append_movement-kept :
      (m : StockMovement) (infer : Bool) (s : StockItem) → P s → P (append_movement m infer s).1
  append_movement-kept m infer s w = elim (append_movement-Stepped m infer s) [
    | inl same ↦ subst P same w
    | inr (v, x, a, e) ↦ subst P e (keep_stored s v x w a)
  ]

  pub after_calls-kept : (cs : List StockCall) (s : StockItem) → P s → P (after_calls to_upper cs s)
  unfolding after_calls
  after_calls-kept [] s w = w
  after_calls-kept (batch_call b ∷ cs) s w =
      after_calls-kept cs (register_batch to_upper b s).1 (register_batch-kept b s w)
  after_calls-kept (movement_call m infer ∷ cs) s w =
      after_calls-kept cs (append_movement m infer s).1 (append_movement-kept m infer s w)

  pub reachable-kept :
      ((id product_id unit_code : Text) (scale : ℕ) (tracks : Bool)
        → P (new_item id product_id unit_code scale tracks))
      → (props : StockItemProps) (s : StockItem) (cs : List StockCall)
      → create_stock_item to_upper props ≡ ok s
      → P (after_calls to_upper cs s)
  reachable-kept start props s cs h =
      let (id, product, scale, e) = created_item to_upper props s h in
      after_calls-kept cs s
        (subst P e (start id product (to_upper (trim props.unit_code)) scale props.tracks_batches))
