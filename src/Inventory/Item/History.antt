-- ===== src/Inventory/Item/History.antt =====
-- The history of a stock item, in exact integers.
use cullen.Prelude.{
  ◌≡◌, refl, sym, ap, ◌∙◌, Bool, true, false, not, ◌||◌, Option, none, some, List, [], ◌∷◌, push,
  arith, if◌then◌else◌,
}
use cullen.Prelude.Int.{ℤ, pos, ◌+ℤ◌, int_laws, +ℤ_comm, +ℤ_assoc}
use cullen.Prelude.Text.{Text, eqb, eqb→eq, is_safe}
use cullen.Inventory.Maps.{map_get, map_set, get-set}
use cullen.Inventory.Movement.{StockMovement}
use cullen.Inventory.Item.State.{signed, or_zero}

-- The specification: a loop over the whole history.
abbrev pub history_balance : List StockMovement → ℤ
history_balance [] = pos 0
history_balance (m ∷ ms) = signed m +ℤ history_balance ms

abbrev pub is_in : Text → Option Text → Bool
is_in b none = false
is_in b (some c) = eqb c b

abbrev pub batch_balance : Text → List StockMovement → ℤ
batch_balance b [] = pos 0
batch_balance b (m ∷ ms) = (if is_in b m.batch_id then signed m else pos 0) +ℤ batch_balance b ms

pub history_balance-push :
    (ms : List StockMovement) (m : StockMovement)
    → history_balance (push ms m) ≡ history_balance ms +ℤ signed m
history_balance-push [] m = +ℤ_comm (signed m) (pos 0)
history_balance-push (x ∷ ms) m =
    ap (λ z. signed x +ℤ z) (history_balance-push ms m)
    ∙ +ℤ_assoc (signed x) (history_balance ms) (signed m)

pub batch_balance-push :
    (b : Text) (ms : List StockMovement) (m : StockMovement)
    → batch_balance b (push ms m)
      ≡ batch_balance b ms +ℤ (if is_in b m.batch_id then signed m else pos 0)
batch_balance-push b [] m = +ℤ_comm (if is_in b m.batch_id then signed m else pos 0) (pos 0)
batch_balance-push b (x ∷ ms) m =
    ap (λ z. (if is_in b x.batch_id then signed x else pos 0) +ℤ z) (batch_balance-push b ms m)
    ∙ +ℤ_assoc (if is_in b x.batch_id then signed x else pos 0) (batch_balance b ms)
        (if is_in b m.batch_id then signed m else pos 0)

add_zero : (a : ℤ) → a ≡ a +ℤ pos 0
add_zero a = omega int_laws

abbrev pub exact_with : Option Text → ℤ → List (Text × ℤ) → List (Text × ℤ)
exact_with none z bs = bs
exact_with (some b) z bs = map_set b (or_zero (map_get b bs) +ℤ z) bs

exact_with-get :
    (b : Text) (o : Option Text) (z : ℤ) (bs : List (Text × ℤ))
    → or_zero (map_get b (exact_with o z bs))
      ≡ or_zero (map_get b bs) +ℤ (if is_in b o then z else pos 0)
exact_with-get b none z bs = add_zero (or_zero (map_get b bs))
exact_with-get b (some c) z bs = ground (
  arith,
  get-set b c (or_zero (map_get c bs) +ℤ z) bs,
  eqb→eq c b,
  add_zero (or_zero (map_get b bs)),
)

-- The exact balances of the batches, and what they come to.
abbrev exact_from : List (Text × ℤ) → List StockMovement → List (Text × ℤ)
exact_from es [] = es
exact_from es (m ∷ ms) = exact_from (exact_with m.batch_id (signed m) es) ms

abbrev pub exact : List StockMovement → List (Text × ℤ)
exact ms = exact_from [] ms

exact_from-push :
    (es : List (Text × ℤ)) (ms : List StockMovement) (m : StockMovement)
    → exact_from es (push ms m) ≡ exact_with m.batch_id (signed m) (exact_from es ms)
exact_from-push es [] m = refl
exact_from-push es (x ∷ ms) m = exact_from-push (exact_with x.batch_id (signed x) es) ms m

pub exact-push :
    (ms : List StockMovement) (m : StockMovement)
    → exact (push ms m) ≡ exact_with m.batch_id (signed m) (exact ms)
exact-push ms m = exact_from-push [] ms m

exact_from-get :
    (b : Text) (es : List (Text × ℤ)) (ms : List StockMovement)
    → or_zero (map_get b (exact_from es ms)) ≡ or_zero (map_get b es) +ℤ batch_balance b ms
exact_from-get b es [] = add_zero (or_zero (map_get b es))
exact_from-get b es (m ∷ ms) =
    exact_from-get b (exact_with m.batch_id (signed m) es) ms
    ∙ ap (λ z. z +ℤ batch_balance b ms) (exact_with-get b m.batch_id (signed m) es)
    ∙ sym (
        +ℤ_assoc (or_zero (map_get b es)) (if is_in b m.batch_id then signed m else pos 0)
          (batch_balance b ms))

zero_add : (z : ℤ) → pos 0 +ℤ z ≡ z
zero_add z = omega int_laws

pub exact-get :
    (b : Text) (ms : List StockMovement) → or_zero (map_get b (exact ms)) ≡ batch_balance b ms
unfolding map_get
exact-get b ms = exact_from-get b [] ms ∙ zero_add (batch_balance b ms)

-- Whether the sum of some first movements is no safe integer.
abbrev unsafe_from : ℤ → List StockMovement → Bool
unsafe_from sum [] = false
unsafe_from sum (m ∷ ms) = not (is_safe (sum +ℤ signed m)) || unsafe_from (sum +ℤ signed m) ms

abbrev pub is_ever_unsafe : List StockMovement → Bool
is_ever_unsafe ms = unsafe_from (pos 0) ms

unsafe_from-push :
    (sum : ℤ) (ms : List StockMovement) (m : StockMovement)
    → unsafe_from sum (push ms m)
      ≡ unsafe_from sum ms || not (is_safe (sum +ℤ history_balance ms +ℤ signed m))
unsafe_from-push sum [] m = ground (arith, ap (λ z. is_safe (z +ℤ signed m)) (add_zero sum))
unsafe_from-push sum (x ∷ ms) m =
    ground
      (arith, unsafe_from-push (sum +ℤ signed x) ms m, +ℤ_assoc sum (signed x) (history_balance ms))

-- A history that stays safe with one more movement was safe, and its sum is.
pub safe-push :
    (ms : List StockMovement) (m : StockMovement)
    → is_ever_unsafe (push ms m) ≡ false
    → (is_ever_unsafe ms ≡ false) × (is_safe (history_balance ms +ℤ signed m) ≡ true)
safe-push ms m h = ground (
  arith,
  h,
  unsafe_from-push (pos 0) ms m,
  ap (λ z. is_safe (z +ℤ signed m)) (zero_add (history_balance ms)),
)
