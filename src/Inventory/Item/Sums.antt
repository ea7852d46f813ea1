-- ===== src/Inventory/Item/Sums.antt =====
-- Balances by batch: what they add up to, and maps of them that agree.
use cullen.Prelude.{◌≡◌, refl, inl, inr, Option, none, some, List, [], ◌∷◌, All, arith, Bool-cases}
use cullen.Prelude.Int.{ℤ, pos, ◌+ℤ◌, ◌≤ℤ◌, int_laws}
use cullen.Prelude.Text.{Text, eqb}
use cullen.Inventory.Maps.{map_get, map_set, get-set}
use cullen.Inventory.Item.State.{or_zero}
use cullen.Inventory.Item.Methods.{batches_with}
use cullen.Inventory.Item.History.{exact_with}
use cullen.Prelude.Double.{add_numbers}
use cullen.Prelude.Double.Rounding.{Agrees}

abbrev pub sum_values : List (Text × ℤ) → ℤ
sum_values [] = pos 0
sum_values ((k, v) ∷ es) = v +ℤ sum_values es

abbrev pub IsPositive : Text × ℤ → Type 0
IsPositive e = pos 0 ≤ℤ e.1

regroup : (w z r : ℤ) → w +ℤ z +ℤ r ≡ w +ℤ r +ℤ z
regroup w z r = omega int_laws

regroup_right : (w z r : ℤ) → w +ℤ (r +ℤ z) ≡ w +ℤ r +ℤ z
regroup_right w z r = omega int_laws

pub sum_values-set :
    (k : Text) (z : ℤ) (es : List (Text × ℤ))
    → sum_values (map_set k (or_zero (map_get k es) +ℤ z) es) ≡ sum_values es +ℤ z
unfolding map_get map_set
sum_values-set k z [] = omega int_laws
sum_values-set k z ((j, w) ∷ es) = elim (Bool-cases (eqb j k)) [
  | inl h ↦ ground (arith, h, regroup w z (sum_values es))
  | inr h ↦ ground (arith, h, sum_values-set k z es, regroup_right w z (sum_values es))
]

pub All-set :
    (k : Text) (z : ℤ) (es : List (Text × ℤ))
    → All IsPositive es
    → pos 0 ≤ℤ z
    → All IsPositive (map_set k z es)
unfolding map_set
All-set k z [] all h = (h, tt)
All-set k z ((j, w) ∷ es) all h = ground (arith, h, all, All-set k z es all.1 h)

pub get-positive :
    (k : Text) (es : List (Text × ℤ)) → All IsPositive es → pos 0 ≤ℤ or_zero (map_get k es)
unfolding map_get
get-positive k [] all = omega arith
get-positive k ((j, w) ∷ es) all = ground (arith, all, get-positive k es all.1)

pub sum_values-positive : (es : List (Text × ℤ)) → All IsPositive es → pos 0 ≤ℤ sum_values es
sum_values-positive [] all = omega arith
sum_values-positive ((k, v) ∷ es) all = omega (int_laws, all.0, sum_values-positive es all.1)

set-Agrees :
    (b c : Text) (x y : ℤ) (bs es : List (Text × ℤ))
    → Agrees (or_zero (map_get c bs)) (or_zero (map_get c es))
    → Agrees x y
    → Agrees (or_zero (map_get c (map_set b x bs))) (or_zero (map_get c (map_set b y es)))
set-Agrees b c x y bs es old new = elim (Bool-cases (eqb b c)) [
  | inl e ↦ rw (get-set c b x bs, get-set c b y es, e) new
  | inr e ↦ rw (get-set c b x bs, get-set c b y es, e) old
]

pub batches_with-Agrees :
    (o : Option Text) (z : ℤ) (bs es : List (Text × ℤ)) (c : Text)
    → Agrees (or_zero (map_get c bs)) (or_zero (map_get c es))
    → ((b : Text)
        → o ≡ some b
        → Agrees (add_numbers (or_zero (map_get b bs)) z) (or_zero (map_get b es) +ℤ z))
    → Agrees (or_zero (map_get c (batches_with o z bs))) (or_zero (map_get c (exact_with o z es)))
unfolding batches_with
batches_with-Agrees none z bs es c old new = old
batches_with-Agrees (some b) z bs es c old new =
    set-Agrees b c (add_numbers (or_zero (map_get b bs)) z) (or_zero (map_get b es) +ℤ z) bs es old
      (new b refl)
