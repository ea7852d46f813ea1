-- ===== src/Cash/Balances/Sum.antt =====
-- The expected balance of a method and a currency is the signed sum of its movements.
use cullen.Prelude.{
  ◌≡◌, sym, ap, subst, ◌∙◌, Bool, true, ◌&&◌, Option, none, some, List, [], ◌∷◌, find?, All,
  Bool-cases, inl, inr, arith, if◌then◌else◌,
}
use cullen.Prelude.Int.{ℤ, pos, ◌+ℤ◌, ◌-ℤ◌, int_laws}
use cullen.Prelude.Text.{Text, eqb, eqb→eq}
use cullen.Shared.Result.{ok, >>=-eq-ok, ok_injective}
use cullen.Shared.Money.{Money, is_currency_code, from_minor_units, zero_money, add, subtract}
use cullen.Cash.Movement.{CashMovement}
use cullen.Cash.Balances.{
  ShiftBalance, Balances, balance_key, get, put, is_outflow, balance_or_zero, apply_movement,
  balances_from, sort_entries, is_for, expected_balances, balance_for,
}
use cullen.Cash.Balances.Keys.{
  balance_key-eqb, get-put, Unique, put-Unique, IsKeyed, put-IsKeyed, sort_entries-IsKeyed,
  get-sort_entries, find-values,
}

-- What one movement adds to the balance of a method and a currency.
abbrev pub contribution : Text → Text → CashMovement → ℤ
contribution a c m =
    if eqb m.method.code a && eqb m.amount.currency c
    then (if is_outflow m.type then pos 0 -ℤ m.amount.minor_units else m.amount.minor_units)
    else pos 0

-- The specification: withdrawals and refunds count against the other movements.
abbrev pub signed_sum : Text → Text → List CashMovement → ℤ
signed_sum a c [] = pos 0
signed_sum a c (m ∷ ms) = contribution a c m +ℤ signed_sum a c ms

abbrev pub HasCurrency : CashMovement → Type 0
HasCurrency m = is_currency_code m.amount.currency ≡ true

-- The amount of an entry, zero if there is none.
abbrev pub units : Option ShiftBalance → ℤ
units none = pos 0
units (some b) = b.amount.minor_units

-- What holds of the map in the loop: distinct keys, each of its own entry.
record IsMap (bs : Balances) : Type 0 where
  unique : Unique bs
  keyed : All IsKeyed bs

abbrev signed : CashMovement → ℤ
signed m = if is_outflow m.type then pos 0 -ℤ m.amount.minor_units else m.amount.minor_units

sub_as_add : (a b : ℤ) → a -ℤ b ≡ a +ℤ (pos 0 -ℤ b)
sub_as_add a b = omega int_laws

update-eq-ok :
    (x : Money) (m : CashMovement) (u : Money)
    → (if is_outflow m.type then subtract x m.amount else add x m.amount) ≡ ok u
    → (u.currency ≡ m.amount.currency) × (u.minor_units ≡ x.minor_units +ℤ signed m)
unfolding add subtract from_minor_units
update-eq-ok x m u h =
    ground
      (arith, eqb→eq x.currency m.amount.currency, sub_as_add x.minor_units m.amount.minor_units)

balance_or_zero-units :
    (o : Option ShiftBalance) (c : Text) (x : Money)
    → balance_or_zero o c ≡ ok x
    → x.minor_units ≡ units o
unfolding zero_money from_minor_units
balance_or_zero-units none c x h = ground arith
balance_or_zero-units (some b) c x h = ground arith

abbrev key_of : CashMovement → Text
key_of m = balance_key m.method.code m.amount.currency

abbrev entry_of : CashMovement → Money → ShiftBalance
entry_of m amount = record { payment_method_code = m.method.code; amount = amount }

add_zero : (a : ℤ) → a ≡ a +ℤ pos 0
add_zero a = omega int_laws

zero_add : (a : ℤ) → pos 0 +ℤ a ≡ a
zero_add a = omega int_laws

regroup : (a b c : ℤ) → a +ℤ b +ℤ c ≡ a +ℤ (b +ℤ c)
regroup a b c = omega int_laws

-- The new entry of one round.
applied :
    (bs : Balances) (m : CashMovement) (next : Balances)
    → apply_movement bs m ≡ ok next
    → (u : Money) × (next ≡ put (key_of m) (entry_of m u) bs)
      × (u.currency ≡ m.amount.currency)
      × (u.minor_units ≡ units (get (key_of m) bs) +ℤ signed m)
unfolding apply_movement
applied bs m next h =
    let (x, e, rest) = >>=-eq-ok (balance_or_zero (get (key_of m) bs) m.amount.currency) _ h in
    let (u, f, done) =
      >>=-eq-ok (if is_outflow m.type then subtract x m.amount else add x m.amount) _ rest in
    let (c, v) = update-eq-ok x m u f in
    (
      u,
      sym (ok_injective done),
      c,
      v ∙ ap (λ z. z +ℤ signed m) (balance_or_zero-units (get (key_of m) bs) m.amount.currency x e),
    )

put-IsMap :
    (m : CashMovement) (u : Money) (bs : Balances)
    → u.currency ≡ m.amount.currency
    → HasCurrency m
    → IsMap bs
    → IsMap (put (key_of m) (entry_of m u) bs)
put-IsMap m u bs c h w = record {
  unique = put-Unique (key_of m) (entry_of m u) bs w.unique;
  keyed =
      put-IsKeyed (key_of m) (entry_of m u) bs
        (ap (balance_key m.method.code) (sym c), subst (λ t. is_currency_code t ≡ true) (sym c) h)
        w.keyed;
}

-- One round adds the movement's contribution to the balance of each method and currency.
put-units :
    (a c : Text) (m : CashMovement) (u : Money) (bs : Balances)
    → is_currency_code c ≡ true
    → HasCurrency m
    → u.minor_units ≡ units (get (key_of m) bs) +ℤ signed m
    → units (get (balance_key a c) (put (key_of m) (entry_of m u) bs))
      ≡ units (get (balance_key a c) bs) +ℤ contribution a c m
put-units a c m u bs hc hm hu =
    let put_lem = get-put (balance_key a c) (key_of m) (entry_of m u) bs in
    let keys = balance_key-eqb m.method.code a m.amount.currency c hm hc in
    elim (Bool-cases (eqb (key_of m) (balance_key a c))) [
      | inl same ↦
          let e = ap (λ k. units (get k bs)) (eqb→eq (key_of m) (balance_key a c) same) in
          ground (arith, put_lem, keys, e)
      | inr other ↦ ground (arith, put_lem, keys, add_zero (units (get (balance_key a c) bs)))
    ]

balances_from-units :
    (a c : Text) (ms : List CashMovement) (bs result : Balances)
    → is_currency_code c ≡ true
    → All HasCurrency ms
    → IsMap bs
    → balances_from bs ms ≡ ok result
    → IsMap result
      × (units (get (balance_key a c) result)
          ≡ units (get (balance_key a c) bs) +ℤ signed_sum a c ms)
unfolding balances_from
balances_from-units a c [] bs result hc all w h =
    let e = ok_injective h in
    (
      subst IsMap e w,
      ap (λ r. units (get (balance_key a c) r)) (sym e)
          ∙ add_zero (units (get (balance_key a c) bs)),
    )
balances_from-units a c (m ∷ ms) bs result hc all w h =
    let (next, e, rest) = >>=-eq-ok (apply_movement bs m) (λ next. balances_from next ms) h in
    let (u, f, cur, v) = applied bs m next e in
    let w' = subst IsMap (sym f) (put-IsMap m u bs cur all.0 w) in
    let (done, total) = balances_from-units a c ms next result hc all.1 w' rest in
    (
      done,
      total
          ∙ ap (λ b. units (get (balance_key a c) b) +ℤ signed_sum a c ms) f
          ∙ ap (λ z. z +ℤ signed_sum a c ms) (put-units a c m u bs hc all.0 v)
          ∙ regroup (units (get (balance_key a c) bs)) (contribution a c m) (signed_sum a c ms),
    )

found-units :
    (o : Option ShiftBalance) (c : Text) (r : Money)
    → (elim o [ none ↦ zero_money c | some b ↦ ok b.amount ]) ≡ ok r
    → r.minor_units ≡ units o
unfolding zero_money from_minor_units
found-units none c r h = ground arith
found-units (some b) c r h = ground arith

-- The balance of a method and a currency, where it is computed without an error, is the sum of the
-- amounts of the shift's movements in that method and currency, withdrawals and refunds counted as
-- negative, whatever the collation by which the balances are sorted.
pub balance_for-eq-signed_sum :
    (locale_le : Text → Text → Bool) (ms : List CashMovement) (a c : Text) (r : Money)
    → is_currency_code c ≡ true
    → All HasCurrency ms
    → balance_for locale_le ms a c ≡ ok r
    → r.minor_units ≡ signed_sum a c ms
unfolding balance_for expected_balances get
balance_for-eq-signed_sum le ms a c r hc all h =
    let (sorted, e, rest) = >>=-eq-ok (expected_balances le ms) _ h in
    let (bs, f, done) = >>=-eq-ok (balances_from [] ms) _ e in
    let (w, total) =
      balances_from-units a c ms [] bs hc all (record { unique = tt; keyed = tt }) f in
    let found =
      ap (find? (is_for a c)) (sym (ok_injective done))
      ∙ find-values a c (sort_entries le bs) hc (sort_entries-IsKeyed le bs w.keyed)
      ∙ get-sort_entries le (balance_key a c) bs w.unique in
    found-units (find? (is_for a c) sorted) c r rest
    ∙ ap units found
    ∙ total
    ∙ zero_add (signed_sum a c ms)
