-- ===== src/Shared/Money/Laws.antt =====
-- What holds of the results of the operations on amounts.
use cullen.Prelude.{
  subst, ℕ, suc, ◌+◌, ◌*◌, ◌^◌, ◌≤◌, ◌≡◌, ◌≢◌, refl, ap, ◌∙◌, ◌-◌, ◌/◌, ◌%◌, true, arith,
}
use native.Mathlib.Nat.{mul-le-mul_left, mul-div_cancel, mul-mod_left}
use cullen.Prelude.Int.{ℤ, pos, negsuc, neg_ℕ, ◌+ℤ◌, ◌-ℤ◌, ◌*ℤ◌, ◌/ℤ◌, ◌%ℤ◌, ◌≤ℤ◌, int_laws}
use cullen.Prelude.Text.{Text, eqb→eq, Number, integer, not_integer, is_safe}
use cullen.Shared.Errors.{money_currency_mismatch}
use cullen.Shared.Result.{Result, ok, err}
use cullen.Shared.Rounding.{divide_rounding_half_away_from_zero}
use cullen.Shared.Rounding.Nearest.{half_up, half_up_nearest, nearest_le, divide_rounding-pos}
use cullen.Shared.Quantity.{Quantity, Percentage}
use cullen.Shared.Money.{
  Money, is_currency_code, from_minor_units, from_safe_big_int, add, subtract, multiply,
  apply_percentage, extract_included_percentage, multiply_by_quantity, divide_by_quantity,
  basis_points_denominator,
}

-- What the constructor's callers check: a safe amount, and a currency of three capital letters.
pub record IsValid (m : Money) : Type 0 where
  pub safe : is_safe m.minor_units ≡ true
  pub coded : is_currency_code m.currency ≡ true

-- A result is an error, or a valid amount in the currency of m.
abbrev pub Keeps : Money → Result Money → Type 0
Keeps m (ok r) = IsValid r × (r.currency ≡ m.currency)
Keeps m (err e) = Unit {0}

pub from_minor_units-IsValid :
    (n : Number) (c : Text) (m : Money) → from_minor_units n c ≡ ok m → IsValid m
unfolding from_minor_units
from_minor_units-IsValid (integer z) c m h = ground arith
from_minor_units-IsValid not_integer c m h = cc

from_safe_big_int-Keeps :
    (m : Money) → IsValid m → (z : ℤ) → Keeps m (from_safe_big_int z m.currency)
unfolding from_safe_big_int
from_safe_big_int-Keeps m v z = ground arith

pub add-Keeps : (m n : Money) → IsValid m → Keeps m (add m n)
unfolding add
add-Keeps m n v = ground arith

pub subtract-Keeps : (m n : Money) → IsValid m → Keeps m (subtract m n)
unfolding subtract
subtract-Keeps m n v = ground arith

multiply-Keeps : (m : Money) (f : Number) → IsValid m → Keeps m (multiply m f)
unfolding multiply
multiply-Keeps m (integer f) v = ground arith
multiply-Keeps m not_integer v = tt

divide_by_quantity-Keeps : (m : Money) (q : Quantity) → IsValid m → Keeps m (divide_by_quantity m q)
unfolding divide_by_quantity
divide_by_quantity-Keeps m q v = ground arith

-- From a valid amount, each of the seven arithmetic methods throws or returns a valid amount in the
-- same currency: no result leaves the range of the safe integers.
pub arithmetic-Keeps :
    (m n : Money) (f : Number) (p : Percentage) (q : Quantity)
    → IsValid m
    → Keeps m (add m n)
      × Keeps m (subtract m n)
      × Keeps m (multiply m f)
      × Keeps m (apply_percentage m p)
      × Keeps m (extract_included_percentage m p)
      × Keeps m (multiply_by_quantity m q)
      × Keeps m (divide_by_quantity m q)
unfolding apply_percentage extract_included_percentage multiply_by_quantity
arithmetic-Keeps m n f p q v = (
  add-Keeps m n v,
  subtract-Keeps m n v,
  multiply-Keeps m f v,
  from_safe_big_int-Keeps m v (
      divide_rounding_half_away_from_zero (m.minor_units *ℤ pos p.basis_points)
        (pos basis_points_denominator)),
  from_safe_big_int-Keeps m v (
      m.minor_units
      -ℤ divide_rounding_half_away_from_zero (m.minor_units *ℤ pos basis_points_denominator)
          (pos (basis_points_denominator + p.basis_points))),
  from_safe_big_int-Keeps m v
      (divide_rounding_half_away_from_zero (m.minor_units *ℤ q.scaled_value) (pos (10 ^ q.scale))),
  divide_by_quantity-Keeps m q v,
)

sub_add : (a b : ℤ) → a +ℤ b -ℤ b ≡ a
sub_add a b = omega int_laws

-- What was added to a valid amount can be subtracted again, and gives the amount back.
pub subtract-add : (m n s : Money) → IsValid m → add m n ≡ ok s → subtract s n ≡ ok m
unfolding add subtract from_minor_units
subtract-add m n s v h = ground (arith, sub_add m.minor_units n.minor_units)

-- Amounts in two currencies are neither added nor subtracted.
pub mixed_currencies :
    (m n : Money)
    → m.currency ≢ n.currency
    → (add m n ≡ err money_currency_mismatch) × (subtract m n ≡ err money_currency_mismatch)
unfolding add subtract
mixed_currencies m n h = ground (arith, eqb→eq m.currency n.currency)

-- At most 100 per cent of a magnitude.
percentage_le : (a p : ℕ) → p ≤ 10000 → half_up (a * p) 10000 ≤ a
percentage_le a p h =
    nearest_le (a * p) 10000 (half_up (a * p) 10000) a
      (half_up_nearest (a * p) 10000 (omega arith)).0 (omega (arith, mul-le-mul_left a h))

-- The base that a gross magnitude contains.
included_base_le : (a p : ℕ) → half_up (a * 10000) (10000 + p) ≤ a
included_base_le a p =
    nearest_le (a * 10000) (10000 + p) (half_up (a * 10000) (10000 + p)) a
      (half_up_nearest (a * 10000) (10000 + p) (omega arith)).0 (omega arith)

-- A result that is not negative, at most the amount m, and in its currency.
abbrev pub Within : Money → Result Money → Type 0
Within m (ok r) =
    (pos 0 ≤ℤ r.minor_units) × (r.minor_units ≤ℤ m.minor_units) × (r.currency ≡ m.currency)
Within m (err e) = ⊥

units-Within :
    (m : Money) (a t : ℕ) (z : ℤ)
    → IsValid m
    → m.minor_units ≡ pos a
    → z ≡ pos t
    → t ≤ a
    → Within m (from_safe_big_int z m.currency)
unfolding from_safe_big_int
units-Within m a t z v e f h = ground arith

divide_rounding-mul :
    (z : ℤ) (a p d : ℕ)
    → z ≡ pos a
    → divide_rounding_half_away_from_zero (z *ℤ pos p) (pos d) ≡ pos (half_up (a * p) d)
unfolding ◌*ℤ◌
divide_rounding-mul z a p d e =
    ap (λ z. divide_rounding_half_away_from_zero (z *ℤ pos p) (pos d)) e
    ∙ divide_rounding-pos (a * p) d

-- What is left of a gross magnitude when its base is taken away.
included_part : (z base : ℤ) (a b : ℕ) → z ≡ pos a → base ≡ pos b → b ≤ a → z -ℤ base ≡ pos (a - b)
unfolding ◌-ℤ◌
included_part z base a b e f h = ground arith

nonneg-cases : (z : ℤ) → pos 0 ≤ℤ z → (a : ℕ) × (z ≡ pos a)
nonneg-cases (pos a) h = (a, refl)
nonneg-cases (negsuc a) h = absurd (omega arith)

-- At most 100 per cent of a valid amount that is not negative is computed without an error; the
-- result is not negative, is at most the amount, and is in its currency.
pub apply_percentage_bounds :
    (m : Money) (p : Percentage)
    → IsValid m
    → pos 0 ≤ℤ m.minor_units
    → p.basis_points ≤ basis_points_denominator
    → Within m (apply_percentage m p)
unfolding apply_percentage
apply_percentage_bounds m p v h k =
    let (a, e) = nonneg-cases m.minor_units h in
    units-Within m a (half_up (a * p.basis_points) 10000) _ v e
      (divide_rounding-mul m.minor_units a p.basis_points 10000 e)
      (percentage_le a p.basis_points k)

-- The tax contained in a valid amount that is not negative is found without an error; it is not
-- negative, is at most the amount, and is in its currency.
pub extract_included_percentage_bounds :
    (m : Money) (p : Percentage)
    → IsValid m
    → pos 0 ≤ℤ m.minor_units
    → Within m (extract_included_percentage m p)
unfolding extract_included_percentage
extract_included_percentage_bounds m p v h =
    let (a, e) = nonneg-cases m.minor_units h in
    let b = half_up (a * 10000) (10000 + p.basis_points) in
    units-Within m a (a - b) _ v e
      (included_part m.minor_units _ a b e
        (divide_rounding-mul m.minor_units a 10000 (10000 + p.basis_points) e)
        (included_base_le a p.basis_points))
      (omega arith)

exact_quotient : (q k : ℕ) → (q * suc k / suc k ≡ q) × (q * suc k % suc k ≡ 0)
exact_quotient q k = (mul-div_cancel q (omega arith), mul-mod_left q (suc k))

exact_division :
    (q k : ℕ) → divide_rounding_half_away_from_zero (pos (q * suc k)) (negsuc k) ≡ neg_ℕ q +ℤ pos 1
unfolding divide_rounding_half_away_from_zero ◌*ℤ◌ ◌/ℤ◌ ◌%ℤ◌
exact_division q k = rw (exact_quotient q k).0 (rw (exact_quotient q k).1 (ground arith))

negative_division :
    (q k n : ℕ)
    → suc n / suc k ≡ suc q
    → suc n % suc k ≡ 0
    → divide_rounding_half_away_from_zero (negsuc n) (negsuc k) ≡ pos q
unfolding divide_rounding_half_away_from_zero ◌*ℤ◌ ◌/ℤ◌ ◌%ℤ◌
negative_division q k n d r = rw (d, r) (ground arith)

exact_negative_division :
    (q k n : ℕ)
    → suc n ≡ suc q * suc k
    → divide_rounding_half_away_from_zero (negsuc n) (negsuc k) ≡ pos q
exact_negative_division q k n e =
    negative_division q k n (ap (λ m. m / suc k) e ∙ (exact_quotient (suc q) k).0)
      (ap (λ m. m % suc k) e ∙ (exact_quotient (suc q) k).1)

negative_units :
    (q k n : ℕ) (c : Text)
    → suc n ≡ suc q * suc k
    → divide_by_quantity
        (record { minor_units = negsuc n; currency = c })
        (record { scaled_value = negsuc k; scale = 0 })
      ≡ from_safe_big_int (pos q) c
unfolding divide_by_quantity ◌*ℤ◌
negative_units q k n c e =
    ap (λ z. from_safe_big_int z c)
      (ap (λ m. divide_rounding_half_away_from_zero (neg_ℕ m) (negsuc k)) {y = suc n} (omega arith)
        ∙ exact_negative_division q k n e)

-- A quantity may be negative, and then the rounding, which is meant for positive divisors, moves even an
-- exact quotient by one, against the sign of the amount: q * (k + 1) units divided by the quantity
-- -(k + 1) give -q + 1 units, not -q, and -(q + 1) * (k + 1) units give q, not q + 1.
pub divide_by_quantity_negative :
    (q k : ℕ) (c : Text)
    → let quantity : Quantity = record { scaled_value = negsuc k; scale = 0 } in
      (divide_by_quantity (record { minor_units = pos (q * suc k); currency = c }) quantity
        ≡ from_safe_big_int (neg_ℕ q +ℤ pos 1) c)
      × (divide_by_quantity (record { minor_units = neg_ℕ (suc q * suc k); currency = c }) quantity
          ≡ from_safe_big_int (pos q) c)
unfolding divide_by_quantity ◌*ℤ◌
divide_by_quantity_negative q k c = (
  ap (λ z. from_safe_big_int z c)
      (ap (λ n. divide_rounding_half_away_from_zero (pos n) (negsuc k)) (omega arith)
        ∙ exact_division q k),
  (let n = k + q * suc k in
      let e : suc n ≡ suc q * suc k = omega arith in
      subst
        (λ m.
          divide_by_quantity (record { minor_units = neg_ℕ m; currency = c })
            (record { scaled_value = negsuc k; scale = 0 })
          ≡ from_safe_big_int (pos q) c)
        e (negative_units q k n c e)),
)
