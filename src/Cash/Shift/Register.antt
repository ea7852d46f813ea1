-- ===== src/Cash/Shift/Register.antt =====
-- What registering a movement does.
use cullen.Prelude.{
  ◌≡◌, refl, sym, ap, subst, ◌∙◌, Bool, true, false, Option, none, some, List, [], ◌∷◌, All, arith,
  find?, push, inl, inr, Option-cases,
}
use cullen.Prelude.Int.{ℤ, pos, ◌+ℤ◌, ◌-ℤ◌, ◌≤ℤ◌, int_laws, +ℤ_comm, +ℤ_assoc, eqb_ℤ_refl}
use cullen.Prelude.Text.{
  Text, eqb, eqb→eq, eqb_refl, trim, Date, date_eqb, is_invalid, invalid_date, instant,
}
use cullen.Shared.Result.{ok, require_text, Result-cases}
use cullen.Shared.Money.{Money, is_currency_code}
use cullen.Cash.Movement.{
  CashMovement, sale_payment, withdrawal, create_movement, matches, Reference, trim_reference,
  reference_eqb,
}
use cullen.Cash.Balances.{balance_for}
use cullen.Cash.Balances.Sum.{signed_sum, contribution, HasCurrency, balance_for-eq-signed_sum}
use cullen.Cash.Shift.{
  Shift, existing_movement, RegisterProps, register_movement, register_new, assert_covered,
}

find?-push :
    (id : Text) (ms : List CashMovement) (m : CashMovement)
    → find? (λ x. eqb x.id id) ms ≡ none
    → eqb m.id id ≡ true
    → find? (λ x. eqb x.id id) (push ms m) ≡ some m
find?-push id [] m h e = ground arith
find?-push id (x ∷ ms) m h e = ground (arith, find?-push id ms m)

date_eqb_refl : (d : Date) → is_invalid d ≡ false → date_eqb d d ≡ true
date_eqb_refl invalid_date h = cc
date_eqb_refl (instant z) h = eqb_ℤ_refl z

reference_eqb_refl : (r : Option Reference) → reference_eqb r r ≡ true
reference_eqb_refl none = refl
reference_eqb_refl (some r) = ground (arith, eqb_refl r.source_id, eqb_refl r.source_event_id)

-- A movement matches the request that created it, if it is for a sale payment.
create-matches :
    (p m : CashMovement)
    → p.type ≡ sale_payment
    → create_movement p ≡ ok m
    → (matches m p ≡ true) × (m.id ≡ trim p.id) × (m.type ≡ p.type)
unfolding create_movement matches require_text
create-matches p m t h = ground (
  arith,
  eqb_refl p.method.code,
  eqb_refl p.amount.currency,
  eqb_ℤ_refl p.amount.minor_units,
  eqb_refl (trim p.reason),
  eqb_refl (trim p.registered_by),
  date_eqb_refl p.registered_at,
  reference_eqb_refl (trim_reference p.reference),
)

create-id : (p m : CashMovement) → create_movement p ≡ ok m → m.id ≡ trim p.id
unfolding create_movement require_text
create-id p m h = ground arith

found-id :
    (id : Text) (ms : List CashMovement) (m : CashMovement)
    → find? (λ x. eqb x.id id) ms ≡ some m
    → eqb m.id id ≡ true
found-id id [] m h = cc
found-id id (x ∷ ms) m h = ground (arith, found-id id ms m)

signed_sum-push :
    (a c : Text) (ms : List CashMovement) (m : CashMovement)
    → signed_sum a c (push ms m) ≡ signed_sum a c ms +ℤ contribution a c m
signed_sum-push a c [] m = +ℤ_comm (contribution a c m) (pos 0)
signed_sum-push a c (x ∷ ms) m =
    ap (λ z. contribution a c x +ℤ z) (signed_sum-push a c ms m)
    ∙ +ℤ_assoc (contribution a c x) (signed_sum a c ms) (contribution a c m)

own_contribution :
    (m : CashMovement)
    → m.type ≡ withdrawal
    → contribution m.method.code m.amount.currency m ≡ pos 0 -ℤ m.amount.minor_units
own_contribution m t = ground (arith, eqb_refl m.method.code, eqb_refl m.amount.currency)

-- What is left when a covered withdrawal is taken from a balance.
left_over :
    (m : CashMovement) (b sum : ℤ)
    → m.type ≡ withdrawal
    → m.amount.minor_units ≤ℤ b
    → b ≡ sum
    → pos 0 ≤ℤ sum +ℤ contribution m.method.code m.amount.currency m
left_over m b sum t h e =
    subst (λ z. pos 0 ≤ℤ sum +ℤ z) (sym (own_contribution m t))
      (subst (λ z. pos 0 ≤ℤ z +ℤ (pos 0 -ℤ m.amount.minor_units)) e (omega int_laws))

module _ (locale_le : Text → Text → Bool) where
  -- A movement that is registered under a new identifier is what `create` makes of the request, is
  -- added at the end, and was covered.
  register_new-eq-ok :
      (r : RegisterProps) (s e : Shift) (m : CashMovement)
      → register_new locale_le r s ≡ (ok m, e)
      → (create_movement r.movement ≡ ok m)
        × (e.movements ≡ push s.movements m)
        × (assert_covered locale_le m s ≡ ok tt)
        × (e.terminal_id ≡ s.terminal_id)
        × (e.origin_node_id ≡ s.origin_node_id)
        × (e.status ≡ s.status)
  unfolding register_new
  register_new-eq-ok r s e m h = ground arith

  register-new :
      (r : RegisterProps) (s e : Shift) (m : CashMovement)
      → existing_movement r.movement.id s ≡ none
      → register_movement locale_le r s ≡ (ok m, e)
      → register_new locale_le r s ≡ (ok m, e)
  unfolding register_movement
  register-new r s e m n h = ground arith

  -- Where the identifier is taken, a call that succeeds changes nothing.
  register-taken :
      (r : RegisterProps) (s e : Shift) (m old : CashMovement)
      → existing_movement r.movement.id s ≡ some old
      → register_movement locale_le r s ≡ (ok m, e)
      → s ≡ e
  unfolding register_movement
  register-taken r s e m old n h = ground arith

  register-owned :
      (r : RegisterProps) (s e : Shift) (m : CashMovement)
      → register_movement locale_le r s ≡ (ok m, e)
      → (eqb s.terminal_id r.terminal_id ≡ true) × (eqb s.origin_node_id r.origin_node_id ≡ true)
  unfolding register_movement
  register-owned r s e m h = ground arith

  -- A call that matches the movement it finds returns it.
  replayed :
      (r : RegisterProps) (e : Shift) (m : CashMovement)
      → eqb e.terminal_id r.terminal_id ≡ true
      → eqb e.origin_node_id r.origin_node_id ≡ true
      → existing_movement r.movement.id e ≡ some m
      → m.type ≡ sale_payment
      → r.movement.type ≡ sale_payment
      → matches m r.movement ≡ true
      → register_movement locale_le r e ≡ (ok m, e)
  unfolding register_movement
  replayed r e m a b x t u k = ground arith

  -- Registering a sale payment is idempotent: if a call whose identifier has no outer white space
  -- succeeds, the same call on the resulting shift succeeds again, with the same movement, and changes
  -- nothing.
  pub repeated_sale_payment :
      (r : RegisterProps) (s e : Shift) (m : CashMovement)
      → r.movement.type ≡ sale_payment
      → trim r.movement.id ≡ r.movement.id
      → register_movement locale_le r s ≡ (ok m, e)
      → register_movement locale_le r e ≡ (ok m, e)
  repeated_sale_payment r s e m t i h = elim (Option-cases (existing_movement r.movement.id s)) [
    | inr (old, x) ↦
        let same = register-taken r s e m old x h in
        subst (λ z. register_movement locale_le r z ≡ (ok m, e)) same h
    | inl new ↦
        let (made, pushed, _, terminal, node, _) =
          register_new-eq-ok r s e m (register-new r s e m new h) in
        let (matched, named, typed) = create-matches r.movement m t made in
        let (a, b) = register-owned r s e m h in
        replayed r e m (ap (λ x. eqb x r.terminal_id) terminal ∙ a)
          (ap (λ x. eqb x r.origin_node_id) node ∙ b)
          (ap (find? (λ x. eqb x.id r.movement.id)) pushed
            ∙ find?-push r.movement.id s.movements m new
                (ap (λ x. eqb x r.movement.id) (named ∙ i) ∙ eqb_refl r.movement.id))
          (typed ∙ t) t matched
  ]

  covered :
      (m : CashMovement) (s : Shift)
      → m.type ≡ withdrawal
      → assert_covered locale_le m s ≡ ok tt
      → (b : Money) × (balance_for locale_le s.movements m.method.code m.amount.currency ≡ ok b)
        × (m.amount.minor_units ≤ℤ b.minor_units)
  unfolding assert_covered
  covered m s t h =
      elim (Result-cases (balance_for locale_le s.movements m.method.code m.amount.currency)) [
        | inl (b, e) ↦ (b, e, ground arith)
        | inr (_, e) ↦ absurd (ground arith)
      ]

  -- A withdrawal that is accepted under a new identifier never overdraws: afterwards the signed sum of
  -- the shift's movements in its method and currency is not negative.
  pub withdrawal_never_overdraws :
      (r : RegisterProps) (s e : Shift) (m : CashMovement)
      → existing_movement r.movement.id s ≡ none
      → m.type ≡ withdrawal
      → is_currency_code m.amount.currency ≡ true
      → All HasCurrency s.movements
      → register_movement locale_le r s ≡ (ok m, e)
      → pos 0 ≤ℤ signed_sum m.method.code m.amount.currency e.movements
  withdrawal_never_overdraws r s e m new t c all h =
      let (_, pushed, cov, _, _, _) = register_new-eq-ok r s e m (register-new r s e m new h) in
      let (b, available, enough) = covered m s t cov in
      let sum =
        balance_for-eq-signed_sum locale_le s.movements m.method.code m.amount.currency b c all
          available in
      subst (λ ms. pos 0 ≤ℤ signed_sum m.method.code m.amount.currency ms) (sym pushed)
        (subst (λ z. pos 0 ≤ℤ z)
          (sym (signed_sum-push m.method.code m.amount.currency s.movements m))
          (left_over m b.minor_units _ t enough sum))

  -- An identifier with outer white space is looked up as it is given and stored trimmed: if the padded
  -- identifier is not there, the movement is added under the trimmed one, although a movement has it.
  pub padded_identifier_duplicates :
      (r : RegisterProps) (s e : Shift) (m old : CashMovement)
      → existing_movement (trim r.movement.id) s ≡ some old
      → existing_movement r.movement.id s ≡ none
      → register_movement locale_le r s ≡ (ok m, e)
      → (m.id ≡ old.id) × (e.movements ≡ push s.movements m)
  padded_identifier_duplicates r s e m old x new h =
      let (made, pushed, _, _, _, _) = register_new-eq-ok r s e m (register-new r s e m new h) in
      (
        create-id r.movement m made
            ∙ sym (
                eqb→eq old.id (trim r.movement.id)
                  (found-id (trim r.movement.id) s.movements old x)),
        pushed,
      )
