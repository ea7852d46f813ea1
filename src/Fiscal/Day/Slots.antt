-- ===== src/Fiscal/Day/Slots.antt =====
-- The positions of reports: what a method holds is the report in the list, and writing to it changes
-- that report alone.
use cullen.Prelude.{
  ℕ, zero, suc, ◌+◌, ◌≤◌, ◌≡◌, refl, sym, subst, ap, ◌∙◌, ◌⊎◌, inl, inr, Bool, true, Option, none,
  some, List, [], ◌∷◌, map, All, length, push, arith, if◌then◌else◌, Option-cases, Bool-cases,
}
use cullen.Prelude.Text.{Text, eqb}
use cullen.Fiscal.Day.State.{FiscalReport, set_at, locate}

pub some_injective {ℓ} : {A : Type ℓ} {a b : A} → some a ≡ some b → a ≡ b
some_injective h = cc

module _ {ℓ} {A : Type ℓ} where
  abbrev pub get_at : ℕ → List A → Option A
  get_at n [] = none
  get_at zero (x ∷ xs) = some x
  get_at (suc n) (x ∷ xs) = get_at n xs

  pub set_at-set_at : (i : ℕ) (x y : A) (xs : List A) → set_at i y (set_at i x xs) ≡ set_at i y xs
  set_at-set_at i x y [] = refl
  set_at-set_at zero x y (z ∷ zs) = refl
  set_at-set_at (suc i) x y (z ∷ zs) = ap (λ ws. z ∷ ws) (set_at-set_at i x y zs)

  pub set_at-push : (x : A) (xs : List A) → set_at (length xs) x (push xs x) ≡ push xs x
  set_at-push x [] = refl
  set_at-push x (z ∷ zs) = ap (λ ws. z ∷ ws) (set_at-push x zs)

  pub All-get_at {κ} :
      (P : A → Type κ) (i : ℕ) (x : A) (xs : List A) → All P xs → get_at i xs ≡ some x → P x
  All-get_at P i x [] all h = cc
  All-get_at P zero x (z ∷ zs) all h = subst P (some_injective h) all.0
  All-get_at P (suc i) x (z ∷ zs) all h = All-get_at P i x zs all.1 h

  pub All-set_at {κ} :
      (P : A → Type κ) (i : ℕ) (x : A) (xs : List A) → All P xs → P x → All P (set_at i x xs)
  All-set_at P i x [] all h = tt
  All-set_at P zero x (z ∷ zs) all h = (h, all.1)
  All-set_at P (suc i) x (z ∷ zs) all h = (all.0, All-set_at P i x zs all.1 h)

  abbrev pub count : (A → Bool) → List A → ℕ
  count p [] = 0
  count p (x ∷ xs) = (if p x then 1 else 0) + count p xs

  pub count-set_at :
      (p : A → Bool) (i : ℕ) (x y : A) (xs : List A)
      → get_at i xs ≡ some x
      → p y ≡ p x
      → count p (set_at i y xs) ≡ count p xs
  count-set_at p i x y [] h e = refl
  count-set_at p zero x y (z ∷ zs) h e =
      ap (λ b. (if b then 1 else 0) + count p zs) (e ∙ ap p (sym (some_injective h)))
  count-set_at p (suc i) x y (z ∷ zs) h e = omega (arith, count-set_at p i x y zs h e)

  pub count-get_at :
      (p : A → Bool) (i : ℕ) (x : A) (xs : List A)
      → get_at i xs ≡ some x
      → p x ≡ true
      → 1 ≤ count p xs
  count-get_at p i x [] h t = cc
  count-get_at p zero x (z ∷ zs) h t =
      let q : p z ≡ true = ap p (some_injective h) ∙ t in rw q (omega arith)
  count-get_at p (suc i) x (z ∷ zs) h t = omega (arith, count-get_at p i x zs h t)

  -- Writing to a position is read back.
  pub get_at-set_at_same :
      (i : ℕ) (x y : A) (xs : List A) → get_at i xs ≡ some x → get_at i (set_at i y xs) ≡ some y
  get_at-set_at_same i x y [] h = cc
  get_at-set_at_same zero x y (z ∷ zs) h = refl
  get_at-set_at_same (suc i) x y (z ∷ zs) h = get_at-set_at_same i x y zs h

  -- Writing to a position leaves the others.
  pub get_at-set_at :
      (i j : ℕ) (x y : A) (xs : List A)
      → get_at i xs ≡ some x
      → (i ≡ j) ⊎ (get_at i (set_at j y xs) ≡ some x)
  get_at-set_at i j x y [] h = inr h
  get_at-set_at zero zero x y (z ∷ zs) h = inl refl
  get_at-set_at zero (suc j) x y (z ∷ zs) h = inr h
  get_at-set_at (suc i) zero x y (z ∷ zs) h = inr h
  get_at-set_at (suc i) (suc j) x y (z ∷ zs) h = elim (get_at-set_at i j x y zs h) [
    | inl e ↦ inl (ap suc e)
    | inr k ↦ inr k
  ]

  pub get_at-push :
      (i : ℕ) (x y : A) (xs : List A) → get_at i xs ≡ some x → get_at i (push xs y) ≡ some x
  get_at-push i x y [] h = cc
  get_at-push zero x y (z ∷ zs) h = h
  get_at-push (suc i) x y (z ∷ zs) h = get_at-push i x y zs h

  pub count-push :
      (p : A → Bool) (x : A) (xs : List A)
      → count p (push xs x) ≡ count p xs + (if p x then 1 else 0)
  count-push p x [] = omega arith
  count-push p x (z ∷ zs) = omega (arith, count-push p x zs)

pub get_at-map {ℓ κ} :
    {A : Type ℓ} {B : Type κ} (f : A → B) (i : ℕ) (x : A) (xs : List A)
    → get_at i xs ≡ some x
    → get_at i (map f xs) ≡ some (f x)
get_at-map f i x [] h = cc
get_at-map f zero x (z ∷ zs) h = ap some (ap f (some_injective h))
get_at-map f (suc i) x (z ∷ zs) h = get_at-map f i x zs h

pub map-get_at {ℓ κ} :
    {A : Type ℓ} {B : Type κ} (f : A → B) (i : ℕ) (y : B) (xs : List A)
    → get_at i (map f xs) ≡ some y
    → (x : A) × (get_at i xs ≡ some x) × (f x ≡ y)
map-get_at f i y [] h = cc
map-get_at f zero y (z ∷ zs) h = (z, refl, some_injective h)
map-get_at f (suc i) y (z ∷ zs) h = map-get_at f i y zs h

pub map-set_at {ℓ κ} :
    {A : Type ℓ} {B : Type κ} (f : A → B) (i : ℕ) (x : A) (xs : List A)
    → map f (set_at i x xs) ≡ set_at i (f x) (map f xs)
map-set_at f i x [] = refl
map-set_at f zero x (z ∷ zs) = refl
map-set_at f (suc i) x (z ∷ zs) = ap (λ ws. f z ∷ ws) (map-set_at f i x zs)

pub locate-get_at :
    (id : Text) (i : ℕ) (r : FiscalReport) (rs : List FiscalReport)
    → locate id rs ≡ some (i, r)
    → get_at i rs ≡ some r
unfolding locate
locate-get_at id i r [] h = cc
locate-get_at id i r (q ∷ qs) h = elim (Bool-cases (eqb q.id id)) [
  | inl t ↦
      let k : some (0, q) ≡ some (i, r) = sym (ground (arith, t)) ∙ h in
      subst (λ s. get_at s.0 (q ∷ qs) ≡ some s.1) (some_injective k) refl
  | inr f ↦ elim (Option-cases (locate id qs)) [
    | inl n ↦ absurd (ground (arith, f, n))
    | inr ((j, x), e) ↦
        let k : some (suc j, x) ≡ some (i, r) = sym (ground (arith, f, e)) ∙ h in
        subst (λ s. get_at s.0 (q ∷ qs) ≡ some s.1) (some_injective k) (locate-get_at id j x qs e)
  ]
]
