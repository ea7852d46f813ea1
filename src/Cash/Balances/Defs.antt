-- ===== src/Cash/Balances/Defs.antt =====
-- shift.ts: `balanceKey`, `expectedBalances` and `balanceFor`, over the movements of a shift. A `Map` is
-- an association list in insertion order.
use cullen.Prelude.{
  Bool, true, false, ◌&&◌, Option, none, some, List, [], ◌∷◌, ◌++◌, find?, if◌then◌else◌,
}
use cullen.Prelude.Text.{Text, eqb, codes}
use cullen.Shared.Result.{Result, ok, ◌>>=◌}
use cullen.Shared.Money.{Money, zero_money, add, subtract}
use cullen.Cash.Movement.{CashMovement, MovementType, withdrawal, sale_refund}

-- `ShiftBalance`
pub record ShiftBalance : Type 0 where
  pub payment_method_code : Text
  pub amount : Money

-- `balanceKey`
unfoldable pub balance_key : Text → Text → Text
balance_key payment_method_code currency_code = payment_method_code ++ (codes ":" ++ currency_code)

abbrev pub Balances : Type 0
Balances = List (Text × ShiftBalance)

-- `Map.prototype.get`
unfoldable pub get : Text → Balances → Option ShiftBalance
get k [] = none
get k ((j, b) ∷ bs) = if eqb j k then some b else get k bs

-- `Map.prototype.set`
unfoldable pub put : Text → ShiftBalance → Balances → Balances
put k v [] = (k, v) ∷ []
put k v ((j, b) ∷ bs) = if eqb j k then (j, v) ∷ bs else (j, b) ∷ put k v bs

abbrev pub is_outflow : MovementType → Bool
is_outflow t = elim t [ withdrawal ↦ true | sale_refund ↦ true | _ ↦ false ]

-- The balance so far, or zero in the movement's currency.
abbrev pub balance_or_zero : Option ShiftBalance → Text → Result Money
balance_or_zero none currency = zero_money currency
balance_or_zero (some b) currency = ok b.amount

-- One round of the loop of `expectedBalances`.
unfoldable pub apply_movement : Balances → CashMovement → Result Balances
apply_movement bs m = do
  let key = balance_key m.method.code m.amount.currency
  existing ← balance_or_zero (get key bs) m.amount.currency
  amount ← (if is_outflow m.type then subtract existing m.amount else add existing m.amount)
  ok (put key (record { payment_method_code = m.method.code; amount = amount }) bs)

unfoldable pub balances_from : Balances → List CashMovement → Result Balances
balances_from bs [] = ok bs
balances_from bs (m ∷ ms) = do bs' ← apply_movement bs m; balances_from bs' ms

-- A stable sort of entries by key.
module _ (le : Text → Text → Bool) where
  unfoldable pub insert_entry {ℓ} : {A : Type ℓ} → Text × A → List (Text × A) → List (Text × A)
  insert_entry e [] = e ∷ []
  insert_entry e (x ∷ xs) = if le e.0 x.0 then e ∷ x ∷ xs else x ∷ insert_entry e xs

  unfoldable pub sort_entries {ℓ} : {A : Type ℓ} → List (Text × A) → List (Text × A)
  unfolding insert_entry
  sort_entries [] = []
  sort_entries (x ∷ xs) = insert_entry x (sort_entries xs)

abbrev pub values : Balances → List ShiftBalance
values [] = []
values ((_, b) ∷ bs) = b ∷ values bs

abbrev pub is_for : Text → Text → ShiftBalance → Bool
is_for payment_method_code currency_code b =
    eqb b.payment_method_code payment_method_code && eqb b.amount.currency currency_code

-- `String.prototype.localeCompare`, whose collation the model does not hold: whether it is at most 0.
module _ (locale_le : Text → Text → Bool) where
  -- `expectedBalances`
  unfoldable pub expected_balances : List CashMovement → Result (List ShiftBalance)
  unfolding balances_from sort_entries
  expected_balances movements = do
    bs ← balances_from [] movements
    ok (values (sort_entries locale_le bs))

  -- `balanceFor`
  unfoldable pub balance_for : List CashMovement → Text → Text → Result Money
  unfolding expected_balances
  balance_for movements payment_method_code currency_code = do
    bs ← expected_balances movements
    elim (find? (is_for payment_method_code currency_code) bs) [
      | none ↦ zero_money currency_code
      | some b ↦ ok b.amount
    ]
