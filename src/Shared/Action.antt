-- ===== src/Shared/Action.antt =====
-- A method of a class: it may throw, and it may change the object. The object comes back after a
-- throw too, since what was assigned before the throw stays assigned.
pub mod Preserves
use cullen.Prelude.{Bool, true, false}
use cullen.Shared.Errors.{DomainError}
use cullen.Shared.Result.{Result, ok, err}

abbrev pub Action : Type 0 → Type 0 → Type 0
Action S A = S → Result A × S

module _ {S A : Type 0} where
  abbrev pub pure : A → Action S A
  pure a s = (ok a, s)

  -- Code that reads no field of the object, and may throw.
  abbrev pub lift : Result A → Action S A
  lift r s = (r, s)

  -- Reads the object.
  abbrev pub gets : (S → A) → Action S A
  gets f s = (ok (f s), s)

  -- Code that reads the object, and may throw.
  abbrev pub reads : (S → Result A) → Action S A
  reads f s = (f s, s)

infixl 5 ◌>>=◌ ◌>>◌
abbrev pub ◌>>=◌ : {S A B : Type 0} → Action S A → (A → Action S B) → Action S B
◌>>=◌ m f s = let (r, s') = m s in elim r [ ok a ↦ f a s' | err e ↦ (err e, s') ]

abbrev pub ◌>>◌ : {S A B : Type 0} → Action S A → Action S B → Action S B
m >> k = m >>= λ _. k

-- `if (test of the object) throw new DomainError(e)`
abbrev pub throw_when : {S : Type 0} → (S → Bool) → DomainError → Action S (Unit {0})
throw_when test e s = elim (test s) [ true ↦ (err e, s) | false ↦ (ok tt, s) ]

-- Assignments to fields.
abbrev pub modify : {S : Type 0} → (S → S) → Action S (Unit {0})
modify f s = (ok tt, f s)
