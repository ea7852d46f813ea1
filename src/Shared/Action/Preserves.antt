-- ===== src/Shared/Action/Preserves.antt =====
-- Actions that keep a property of the object, whether they throw or not.
use cullen.Prelude.{Bool, arith}
use cullen.Shared.Errors.{DomainError}
use cullen.Shared.Result.{Result, ok, err}
use cullen.Shared.Action.{Action, throw_when, ◌>>=◌}

abbrev pub Preserves : {S A : Type 0} → (S → Type 0) → Action S A → Type 0
Preserves {S} P m = (s : S) → P s → P (m s).1

module _ {S : Type 0} (P : S → Type 0) where
  pub after_result :
      {A B : Type 0} (f : A → Action S B)
      → ((a : A) → Preserves P (f a))
      → (r : Result A) (s : S) → P s
      → (let t : Result B × S = elim r [ ok a ↦ f a s | err e ↦ (err e, s) ] in P t.1)
  after_result f k (ok a) s h = k a s h
  after_result f k (err e) s h = h

  pub bind-Preserves :
      {A B : Type 0} (m : Action S A) (f : A → Action S B)
      → Preserves P m
      → ((a : A) → Preserves P (f a))
      → Preserves P (m >>= f)
  bind-Preserves m f k l s h = after_result f l (m s).0 (m s).1 (k s h)

  pub throw_when-Preserves : (test : S → Bool) (e : DomainError) → Preserves P (throw_when test e)
  throw_when-Preserves test e s h = ground arith
