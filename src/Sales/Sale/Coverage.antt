-- ===== src/Sales/Sale/Coverage.antt =====
-- sale.ts: what `registerPayments` leaves behind when it succeeds.
use cullen.Prelude.{
  ℕ, inl, inr, ◌≡◌, refl, sym, subst, ap, ◌∙◌, false, List, [], ◌∷◌, ◌++◌, is_empty, arith,
}
use cullen.Prelude.Int.{pos}
use cullen.Prelude.Text.{Text, Date, eqb→eq}
use cullen.Shared.Result.{Result, ok, Result-cases, >>=-eq-ok, ok_injective}
use cullen.Shared.Money.{Money, zero_money, add, from_minor_units}
use cullen.Sales.Payment.{Payment}
use cullen.Sales.Sale.State.{Sale, SaleEvent, draft}
use cullen.Sales.Sale.Totals.{
  reduce_add, sum, taxable_base, tax_total, commercial_total, total, amount_paid, paid_total,
}
use cullen.Sales.Sale.Checks.{
  payment_amount, batch_total, expected_total, assert_batch, assert_covered,
}
use cullen.Sales.Sale.Methods.{register_payments, record_payments, record_event, rest_of}

assert_batch-ok :
    (ps : List Payment) (tax : Money) (es : List Text) (s : Sale)
    → assert_batch ps tax es s ≡ ok tt
    → (is_empty s.items ≡ false) × (s.payments ≡ []) × (is_empty ps ≡ false)
unfolding assert_batch
assert_batch-ok ps tax es s h = ground (arith, h)

assert_covered-ok :
    (ps : List Payment) (tax : Money) (s : Sale)
    → assert_covered ps tax s ≡ ok tt
    → (paid : Money) × (due : Money) × (batch_total ps s ≡ ok paid)
      × (expected_total tax s ≡ ok due)
      × (paid.minor_units ≡ due.minor_units)
unfolding assert_covered
assert_covered-ok ps tax s h =
    let (paid, f, h1) = >>=-eq-ok (batch_total ps s) _ h in
    let (due, g, h2) = >>=-eq-ok (expected_total tax s) _ h1 in
    (paid, due, f, g, ground (arith, h2))

-- The sale that the payments are put on.
abbrev with_payments : List Payment → Money → Sale → Sale
with_payments ps tax s = record s { payments = s.payments ++ ps; financial_transaction_tax = tax }

register_payments-ok :
    (ps : List Payment) (tax : Money) (d : Date) (es : List Text) (s s' : Sale)
    → register_payments ps tax d es s ≡ (ok tt, s')
    → (s.status ≡ draft)
      × (assert_batch ps tax es s ≡ ok tt)
      × (assert_covered ps tax s ≡ ok tt)
      × (record_payments ps es d (with_payments ps tax s) ≡ (ok tt, s'))
unfolding register_payments
register_payments-ok ps tax d es s s' h = elim (Result-cases (assert_batch ps tax es s)) [
  | inl (u, f) ↦ elim (Result-cases (assert_covered ps tax s)) [
    | inl (x, g) ↦ ground (arith, h, f, g)
    | inr (x, g) ↦ ground (arith, h, f, g)
  ]
  | inr (x, f) ↦ ground (arith, h, f)
]

add-currency :
    (m n r : Money) → add m n ≡ ok r → (r.currency ≡ m.currency) × (m.currency ≡ n.currency)
unfolding add from_minor_units
add-currency m n r h = ground (arith, h, eqb→eq m.currency n.currency)

pub zero-ok :
    (c : Text) (z : Money) → zero_money c ≡ ok z → (z.currency ≡ c) × (z.minor_units ≡ pos 0)
unfolding zero_money from_minor_units
zero-ok c z h = ground (arith, h)

pub reduce_add-currency :
    {A : Type 0} (f : A → Result Money) (xs : List A) (m r : Money)
    → reduce_add f m xs ≡ ok r
    → r.currency ≡ m.currency
unfolding reduce_add
reduce_add-currency f [] m r h = ap (λ x. x.currency) (sym (ok_injective h))
reduce_add-currency f (x ∷ xs) m r h =
    let (a, _, h1) = >>=-eq-ok (f x) _ h in
    let (t, e, h2) = >>=-eq-ok (add m a) _ h1 in
    reduce_add-currency f xs t r h2 ∙ (add-currency m a t e).0

commercial_total-currency :
    (s : Sale) (c : Money) → commercial_total s ≡ ok c → c.currency ≡ s.currency_code
unfolding commercial_total taxable_base sum
commercial_total-currency s c h =
    let (b, e, h1) = >>=-eq-ok (taxable_base s) _ h in
    let (t, _, h2) = >>=-eq-ok (tax_total s) _ h1 in
    let (z, g, h3) = >>=-eq-ok (zero_money s.currency_code) _ e in
    (add-currency b t c h2).0
    ∙ reduce_add-currency _ s.items z b h3
    ∙ (zero-ok s.currency_code z g).0

payment_amount-amount_paid :
    (c : Text) (p : Payment) (a : Money) → payment_amount c p ≡ ok a → amount_paid p ≡ ok a
payment_amount-amount_paid c p a h = ground (arith, h)

-- The total of a batch is what the getter gives once the batch is on the sale.
reduce_add-amount_paid :
    (c : Text) (ps : List Payment) (m r : Money)
    → reduce_add (payment_amount c) m ps ≡ ok r
    → reduce_add amount_paid m ps ≡ ok r
unfolding reduce_add
reduce_add-amount_paid c [] m r h = h
reduce_add-amount_paid c (p ∷ ps) m r h =
    let (a, e, h1) = >>=-eq-ok (payment_amount c p) _ h in
    let (t, g, h2) = >>=-eq-ok (add m a) _ h1 in
    let q : p.amount_in_sale_currency ≡ a = ok_injective (payment_amount-amount_paid c p a e) in
    ground (arith, g, q, reduce_add-amount_paid c ps t r h2)

-- The events of the payments change nothing but the version and the events.
record_payments-ok :
    (ps : List Payment) (es : List Text) (d : Date) (s : Sale)
    → (n : ℕ) × (ev : List SaleEvent) × (record_payments ps es d s
        ≡ (ok tt, record s { version = n; events = ev }))
unfolding record_payments record_event
record_payments-ok [] es d s = (s.version, s.events, refl)
record_payments-ok (p ∷ ps) es d s = record_payments-ok ps (rest_of es) d _

-- A paid draft: the total is what was paid, and nothing is missing.
pub record IsPaid (s : Sale) : Type 0 where
  pub drafted : s.status ≡ draft
  pub sold : is_empty s.items ≡ false
  pub paying : is_empty s.payments ≡ false
  pub settled : (t : Money) × (total s ≡ ok t) × (paid_total s ≡ ok t)

expected_total-ok :
    (tax due : Money) (s : Sale) → expected_total tax s ≡ ok due → due.currency ≡ s.currency_code
unfolding expected_total
expected_total-ok tax due s h = elim (Result-cases (commercial_total s)) [
  | inl (c, f) ↦
      let g : add c tax ≡ ok due = ground (arith, h, f) in
      (add-currency c tax due g).0 ∙ commercial_total-currency s c f
  | inr (x, f) ↦ ground (arith, h, f)
]

batch_total-ok :
    (ps : List Payment) (paid : Money) (s : Sale)
    → batch_total ps s ≡ ok paid
    → (z : Money) × (zero_money s.currency_code ≡ ok z)
      × (reduce_add amount_paid z ps ≡ ok paid)
      × (paid.currency ≡ s.currency_code)
unfolding batch_total
batch_total-ok ps paid s h = elim (Result-cases (zero_money s.currency_code)) [
  | inl (z, f) ↦
      let g : reduce_add (payment_amount s.currency_code) z ps ≡ ok paid = ground (arith, h, f) in
      (
        z,
        f,
        reduce_add-amount_paid s.currency_code ps z paid g,
        reduce_add-currency _ ps z paid g ∙ (zero-ok s.currency_code z f).0,
      )
  | inr (x, f) ↦ ground (arith, h, f)
]

money_ext : (m n : Money) → m.minor_units ≡ n.minor_units → m.currency ≡ n.currency → m ≡ n
money_ext m n h g = cc

commercial_total-with_payments :
    (ps : List Payment) (tax : Money) (s : Sale) (n : ℕ) (ev : List SaleEvent)
    → commercial_total (record (with_payments ps tax s) { version = n; events = ev })
      ≡ commercial_total s
unfolding commercial_total taxable_base tax_total sum
commercial_total-with_payments ps tax s n ev = refl

-- With the payments on it, the total of the sale is the expected one.
total-with_payments :
    (ps : List Payment) (tax due : Money) (s : Sale) (n : ℕ) (ev : List SaleEvent)
    → expected_total tax s ≡ ok due
    → total (record (with_payments ps tax s) { version = n; events = ev }) ≡ ok due
unfolding total expected_total
total-with_payments ps tax due s n ev h = elim (Result-cases (commercial_total s)) [
  | inl (c, f) ↦ ground (arith, commercial_total-with_payments ps tax s n ev, f, h)
  | inr (x, f) ↦ ground (arith, f, h)
]

pub register_payments-IsPaid :
    (ps : List Payment) (tax : Money) (d : Date) (es : List Text) (s s' : Sale)
    → register_payments ps tax d es s ≡ (ok tt, s')
    → IsPaid s'
unfolding paid_total
register_payments-IsPaid ps tax d es s s' h =
    let (drafted, b, c, r) = register_payments-ok ps tax d es s s' h in
    let (sold, unpaid, paying) = assert_batch-ok ps tax es s b in
    let (paid, due, f, g, same) = assert_covered-ok ps tax s c in
    let (n, ev, after) = record_payments-ok ps es d (with_payments ps tax s) in
    let (z, zero, sum, coded) = batch_total-ok ps paid s f in
    let e : record (with_payments ps tax s) { version = n; events = ev } ≡ s' =
      ap (λ x. x.1) (sym after ∙ r) in
    let all_paid : reduce_add amount_paid z (s.payments ++ ps) ≡ ok paid =
      ap (λ xs. reduce_add amount_paid z (xs ++ ps)) unpaid ∙ sum in
    let same_money : paid ≡ due =
      money_ext paid due same (coded ∙ sym (expected_total-ok tax due s g)) in
    let paid_up : paid_total (record (with_payments ps tax s) { version = n; events = ev })
        ≡ ok due =
      ground (arith, zero, all_paid, same_money) in
    subst IsPaid e (record {
      drafted = drafted;
      sold = sold;
      paying = ap (λ xs. is_empty (xs ++ ps)) unpaid ∙ paying;
      settled = (due, total-with_payments ps tax due s n ev g, paid_up);
    })
