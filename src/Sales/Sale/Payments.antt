-- ===== src/Sales/Sale/Payments.antt =====
-- That a paid sale can be completed, and that only a paid one can.
use cullen.Prelude.{inl, inr, ◌≡◌, refl, ap, ◌∙◌, false, some, List, is_empty, arith}
use cullen.Prelude.Int.{ℤ, pos, ◌-ℤ◌, int_laws}
use cullen.Prelude.Text.{Text, Date, eqb_refl}
use cullen.Shared.Result.{ok, Result-cases, >>=-eq-ok}
use cullen.Shared.Money.{Money, zero_money, subtract, from_minor_units}
use cullen.Sales.Payment.{Payment}
use cullen.Sales.Sale.State.{Sale, draft, completed}
use cullen.Sales.Sale.Totals.{
  sum, taxable_base, tax_total, commercial_total, total, amount_paid, paid_total, balance,
}
use cullen.Sales.Sale.Checks.{assert_paid}
use cullen.Sales.Sale.Methods.{register_payments, record_event, complete}
use cullen.Sales.Sale.Coverage.{IsPaid, register_payments-IsPaid, zero-ok, reduce_add-currency}

sub_self : (a : ℤ) → a -ℤ a ≡ pos 0
sub_self a = omega int_laws

subtract-same : (t : Money) (z : Money) → zero_money t.currency ≡ ok z → subtract t t ≡ ok z
unfolding subtract zero_money from_minor_units
subtract-same t z h = ground (arith, h, eqb_refl t.currency, sub_self t.minor_units)

paid_total-zero :
    (s : Sale) (t : Money)
    → paid_total s ≡ ok t
    → (z : Money) × (t.currency ≡ s.currency_code) × (zero_money s.currency_code ≡ ok z)
unfolding paid_total
paid_total-zero s t h =
    let (z, zero, h1) = >>=-eq-ok (zero_money s.currency_code) _ h in
    (
      z,
      reduce_add-currency amount_paid s.payments z t h1 ∙ (zero-ok s.currency_code z zero).0,
      zero,
    )

IsPaid-balance : (s : Sale) → IsPaid s → (z : Money) × (balance s ≡ ok z) × (z.minor_units ≡ pos 0)
unfolding balance
IsPaid-balance s v =
    let (t, f, g) = v.settled in
    let (z, coded, zero) = paid_total-zero s t g in
    (
      z,
      ground (arith, f, g, subtract-same t z (ap zero_money coded ∙ zero)),
      (zero-ok s.currency_code z zero).1,
    )

IsPaid-assert_paid : (s : Sale) → IsPaid s → assert_paid s ≡ ok tt
unfolding assert_paid
IsPaid-assert_paid s v = let (z, f, g) = IsPaid-balance s v in ground (arith, v.paying, f, g)

total-completed :
    (s : Sale) (d : Date) → total (record s { status = completed; completed_at = some d }) ≡ total s
unfolding total commercial_total taxable_base tax_total sum
total-completed s d = refl

paid_total-completed :
    (s : Sale) (d : Date)
    → paid_total (record s { status = completed; completed_at = some d }) ≡ paid_total s
unfolding paid_total
paid_total-completed s d = refl

-- A paid draft can be completed, whatever the date and the event's identity.
IsPaid-complete : (s : Sale) (d : Date) (e : Text) → IsPaid s → (complete d e s).0 ≡ ok tt
unfolding complete record_event
IsPaid-complete s d e v =
    let (t, f, g) = v.settled in
    ground (
      arith,
      v.drafted,
      v.sold,
      IsPaid-assert_paid s v,
      f,
      g,
      total-completed s d,
      paid_total-completed s d,
    )

-- Payments are taken only if they cover the total exactly, and then nothing stands in the way of the
-- sale: it is still a draft, its total is what was paid, and completing it succeeds.
pub paid_sale_completes :
    (ps : List Payment) (tax : Money) (d : Date) (es : List Text) (s s' : Sale)
    → register_payments ps tax d es s ≡ (ok tt, s')
    → (d' : Date) (e' : Text)
    → (s'.status ≡ draft)
      × ((t : Money) × (total s' ≡ ok t) × (paid_total s' ≡ ok t))
      × ((complete d' e' s').0 ≡ ok tt)
paid_sale_completes ps tax d es s s' h d' e' =
    let v = register_payments-IsPaid ps tax d es s s' h in
    (v.drafted, v.settled, IsPaid-complete s' d' e' v)

complete-assert_paid :
    (s s' : Sale) (d : Date) (e : Text)
    → complete d e s ≡ (ok tt, s')
    → (s.status ≡ draft) × (is_empty s.items ≡ false) × (assert_paid s ≡ ok tt)
unfolding complete
complete-assert_paid s s' d e h = elim (Result-cases (assert_paid s)) [
  | inl (u, f) ↦ ground (arith, h, f)
  | inr (x, f) ↦ ground (arith, h, f)
]

-- A sale is completed only as a draft with items and payments whose balance is zero.
pub complete-IsCovered :
    (s s' : Sale) (d : Date) (e : Text)
    → complete d e s ≡ (ok tt, s')
    → (s.status ≡ draft)
      × (is_empty s.items ≡ false)
      × (is_empty s.payments ≡ false)
      × ((b : Money) × (balance s ≡ ok b) × (b.minor_units ≡ pos 0))
unfolding assert_paid
complete-IsCovered s s' d e h =
    let (a, b, c) = complete-assert_paid s s' d e h in
    elim (Result-cases (balance s)) [
      | inl (m, f) ↦ (a, b, ground (arith, c, f), (m, f, ground (arith, c, f)))
      | inr (x, f) ↦ ground (arith, c, f)
    ]
