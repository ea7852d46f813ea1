-- ===== src/Shared/Result.antt =====
-- The outcome of code that may throw a `DomainError` and changes nothing.
pub mod Again
use cullen.Prelude.{
  ◌≡◌, refl, Bool, true, false, ◌⊎◌, inl, inr, if◌then◌else◌, is_empty, All, List, [], ◌∷◌,
}
use cullen.Prelude.Text.{Text, trim}
use cullen.Shared.Errors.{DomainError}

pub data Result {ℓ} (A : Type ℓ) : Type ℓ where
  ok : A → Result A
  err : DomainError → Result A

infixl 5 ◌>>=◌ ◌>>◌
abbrev pub ◌>>=◌ {ℓ κ} : {A : Type ℓ} {B : Type κ} → Result A → (A → Result B) → Result B
ok value >>= next = next value
err code >>= next = err code

abbrev pub ◌>>◌ {ℓ κ} : {A : Type ℓ} {B : Type κ} → Result A → Result B → Result B
m >> k = m >>= λ _. k

-- `if (c) throw new DomainError(e)`
abbrev pub throw_if : Bool → DomainError → Result (Unit {0})
throw_if true e = err e
throw_if false e = ok tt

-- The `requireText` of each class: the trimmed text, which must not be empty.
unfoldable pub require_text : Text → DomainError → Result Text
require_text value e = if is_empty (trim value) then err e else ok (trim value)

-- `xs.map(f)` where `f` may throw.
abbrev pub traverse {ℓ κ} : {A : Type ℓ} {B : Type κ} → (A → Result B) → List A → Result (List B)
traverse f [] = ok []
traverse f (x ∷ xs) = do y ← f x; ys ← traverse f xs; ok (y ∷ ys)

-- `xs.forEach(f)` where `f` may throw.
abbrev pub for_each {ℓ} : {A : Type ℓ} → (A → Result (Unit {0})) → List A → Result (Unit {0})
for_each f [] = ok tt
for_each f (x ∷ xs) = f x >> for_each f xs

-- If a chain gives a value, its first step gave one, and the rest went on from that.
pub >>=-eq-ok {ℓ κ} :
    {A : Type ℓ} {B : Type κ} (first : Result A) (rest : A → Result B) {y : B}
    → (first >>= rest) ≡ ok y
    → (x : A) × (first ≡ ok x) × (rest x ≡ ok y)
>>=-eq-ok (ok x) rest done = (x, refl, done)
>>=-eq-ok (err code) rest done = cc

pub ok_injective {ℓ} : {A : Type ℓ} {a b : A} → ok a ≡ ok b → a ≡ b
ok_injective h = cc

pub Result-cases {ℓ} :
    {A : Type ℓ} (r : Result A) → ((a : A) × (r ≡ ok a)) ⊎ ((e : DomainError) × (r ≡ err e))
Result-cases (ok a) = inl (a, refl)
Result-cases (err e) = inr (e, refl)

-- A loop that does not throw has checked every element.
pub for_each-All {ℓ κ} :
    {A : Type ℓ} (P : A → Type κ) (f : A → Result (Unit {0}))
    → ((a : A) → f a ≡ ok tt → P a)
    → (xs : List A) → for_each f xs ≡ ok tt
    → All P xs
for_each-All P f sound [] h = tt
for_each-All P f sound (x ∷ xs) h =
    let (_, e, rest) = >>=-eq-ok (f x) (λ _. for_each f xs) h in
    (sound x e, for_each-All P f sound xs rest)
