-- ===== src/Prelude/Double/Rounding.antt =====
-- What rounding to a double leaves, and that it does not bring unsafe integers back.
use cullen.Prelude.{
  ℕ, zero, suc, ◌+◌, ◌*◌, ◌/◌, ◌%◌, ◌≤◌, ◌<◌, ◌≡◌, ◌∙◌, ◌⊎◌, subst, ap, sym, true, ltb, arith,
  Bool-cases, inl, inr,
}
use cullen.Prelude.Int.{ℤ, pos, negsuc, neg_ℕ, ◌≤ℤ◌, ◌+ℤ◌, int_laws}
use cullen.Prelude.Text.{is_safe}
use cullen.Prelude.Double.{significands, spacing, nearest_even, round, to_double, add_numbers}
use native.Mathlib.Nat.{div-add-mod', mod-lt, mul-le-mul_right}
use native.Mathlib.Decide.{dec_le}

nearest_even-one : (n : ℕ) → nearest_even n 1 ≡ n
unfolding nearest_even
nearest_even-one n = ground arith

spacing_first : (f n : ℕ) → n < significands → spacing (suc f) n 1 ≡ 1
unfolding spacing
spacing_first f n h = ground (arith, h)

-- A number below 2 ^ 53 is a double.
round-below : (n : ℕ) → n < significands → round n ≡ n
unfolding round
round-below n h = ap (nearest_even n) (spacing_first 2045 n h) ∙ nearest_even-one n

half_fits :
    (f n s : ℕ)
    → 2 ≤ s
    → 4503599627370496 * s ≤ n
    → (2 ≤ spacing f n s) × (4503599627370496 * spacing f n s ≤ n)
unfolding spacing
half_fits zero n s h k = (h, k)
half_fits (suc f) n s h k = elim (Bool-cases (ltb n (significands * s))) [
  | inl fits ↦ ground (arith, fits, h, k)
  | inr big ↦ ground (arith, big, half_fits f n (2 * s) (omega arith) (ground (arith, big)))
]

at_least : (n s : ℕ) → 2 ≤ s → 4503599627370496 * s ≤ n → 4503599627370496 ≤ n / s
at_least n s h k = elim (dec_le 4503599627370496 (n / s)) [
  | yes le ↦ le
  | no gt ↦
      let l : n / s + 1 ≤ 4503599627370496 = omega (arith, gt) in
      let m : (n / s + 1) * s ≤ 4503599627370496 * s = mul-le-mul_right s l in
      let r : n % s < s = mod-lt n (omega (arith, h)) in
      absurd (grind (arith, m, r, k, div-add-mod' n s))
]

two_products : (q s : ℕ) → 4503599627370496 ≤ q → 2 ≤ s → 4503599627370496 * 2 ≤ q * s
two_products q s h k =
    let a : 4503599627370496 * s ≤ q * s = mul-le-mul_right s h in omega (arith, a, k)

nearest_even-above : (n s : ℕ) → 2 ≤ s → 4503599627370496 ≤ n / s → significands ≤ nearest_even n s
unfolding nearest_even
nearest_even-above n s h k =
    let low : 4503599627370496 * 2 ≤ n / s * s = two_products (n / s) s k h in
    let up : n / s * s ≤ (n / s + 1) * s = mul-le-mul_right s (omega arith) in
    let even : n / s * s ≤ (n / s + n / s % 2) * s = mul-le-mul_right s (omega arith) in
    ground (arith, low, up, even)

spacing_more :
    (f n : ℕ)
    → significands ≤ n
    → (2 ≤ spacing (suc f) n 1) × (4503599627370496 * spacing (suc f) n 1 ≤ n)
unfolding spacing
spacing_more f n h = ground (arith, h, half_fits f n 2)

-- A number from 2 ^ 53 on is not rounded below it.
round-above : (n : ℕ) → significands ≤ n → significands ≤ round n
unfolding round
round-above n h =
    let (two, fits) = spacing_more 2045 n h in
    nearest_even-above n (spacing 2046 n 1) two (at_least n (spacing 2046 n 1) two fits)

-- A safe integer is a double.
pub to_double-safe : (z : ℤ) → is_safe z ≡ true → to_double z ≡ z
unfolding to_double
to_double-safe (pos n) h = ap pos (round-below n (ground (arith, h)))
to_double-safe (negsuc n) h = ap neg_ℕ (round-below (suc n) (ground (arith, h)))

-- Two numbers are equal, or both are too large to be safe.
abbrev pub Agrees : ℤ → ℤ → Type 0
Agrees a b = (a ≡ b) ⊎ ((pos significands ≤ℤ a) × (pos significands ≤ℤ b))

to_double-large : (z : ℤ) → pos significands ≤ℤ z → pos significands ≤ℤ to_double z
unfolding to_double
to_double-large (pos n) h =
    let r : significands ≤ round n = round-above n (omega (arith, h)) in omega (arith, r)
to_double-large (negsuc n) h = absurd (omega (arith, h))

-- What is rounded is the number itself, or both are too large, if the number is not negative.
pub to_double-Agrees : (z : ℤ) → pos 0 ≤ℤ z → Agrees (to_double z) z
to_double-Agrees z h = elim (Bool-cases (is_safe z)) [
  | inl s ↦ inl (to_double-safe z s)
  | inr u ↦ let l : pos significands ≤ℤ z = ground (arith, h, u) in inr (to_double-large z l, l)
]

-- A sum of two numbers that agree with others agrees with theirs, when nothing is taken from what is
-- too large.
pub add_numbers-Agrees :
    (a b z : ℤ)
    → Agrees a b
    → pos 0 ≤ℤ b +ℤ z
    → (pos 0 ≤ℤ z) ⊎ (is_safe a ≡ true)
    → Agrees (add_numbers a z) (b +ℤ z)
unfolding add_numbers
add_numbers-Agrees a b z (inl e) h k =
    subst (λ c. Agrees (to_double (c +ℤ z)) (b +ℤ z)) (sym e) (to_double-Agrees (b +ℤ z) h)
add_numbers-Agrees a b z (inr (la, lb)) h (inl up) =
    inr (to_double-large (a +ℤ z) (omega (int_laws, la, up)), omega (int_laws, lb, up))
add_numbers-Agrees a b z (inr (la, lb)) h (inr s) = absurd (ground (arith, la, s))

-- A safe integer agrees with itself alone.
pub safe-Agrees : (a b : ℤ) → Agrees a b → is_safe a ≡ true → a ≡ b
safe-Agrees a b (inl e) h = e
safe-Agrees a b (inr (la, lb)) h = absurd (ground (arith, la, h))
