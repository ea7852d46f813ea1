-- ===== src/Cash/Shift/Reckoning.antt =====
-- shift.ts: the part of `Shift.close` that compares what was expected with what was declared.
use cullen.Prelude.{
  Bool, true, false, not, Option, none, some, List, [], ◌∷◌, ◌++◌, ltb, if◌then◌else◌,
}
use cullen.Prelude.Int.{pos, ltb_ℤ}
use cullen.Prelude.Text.{Text, eqb}
use cullen.Shared.Errors.{
  shift_closing_balance_negative, payment_method_currency_mismatch, shift_closing_balance_duplicate,
  shift_closing_balance_invalid,
}
use cullen.Shared.Result.{Result, ok, err, ◌>>=◌, ◌>>◌, throw_if}
use cullen.Shared.Money.{Money, zero_money, subtract}
use cullen.Currency.PaymentMethod.{PaymentMethod}
use cullen.Cash.Balances.{ShiftBalance, Balances, balance_key, get, put, sort_entries}
use cullen.Cash.Shift.State.{ClosingBalance}

-- An entry of `declaredBalances`.
pub record DeclaredBalance : Type 0 where
  pub method : PaymentMethod
  pub amount : Money

abbrev pub has_key : Option ShiftBalance → Bool
has_key none = false
has_key (some b) = true

-- The loop that checks the declared balances and collects them.
unfoldable pub declare_balances : Balances → List DeclaredBalance → Result Balances
declare_balances declared [] = ok declared
declare_balances declared (b ∷ bs) = do
  throw_if (ltb_ℤ b.amount.minor_units (pos 0)) shift_closing_balance_negative
  throw_if (not (eqb b.method.currency_code b.amount.currency)) payment_method_currency_mismatch
  let key = balance_key b.method.code b.amount.currency
  throw_if (has_key (get key declared)) shift_closing_balance_duplicate
  declare_balances
      (put key (record { payment_method_code = b.method.code; amount = b.amount }) declared) bs

-- `new Map(...)` over the expected balances.
unfoldable pub map_of : List ShiftBalance → Balances → Balances
map_of [] acc = acc
map_of (b ∷ bs) acc = map_of bs (put (balance_key b.payment_method_code b.amount.currency) b acc)

-- The entries of the second map whose keys the first does not have.
unfoldable pub missing : Balances → Balances → Balances
missing expected [] = []
missing expected ((k, b) ∷ bs) =
    if has_key (get k expected) then missing expected bs else (k, b) ∷ missing expected bs

-- The order of `Array.prototype.sort` on strings, by code units.
unfoldable pub text_le : Text → Text → Bool
text_le [] t = true
text_le (x ∷ s) [] = false
text_le (x ∷ s) (y ∷ t) = if ltb x y then true else if ltb y x then false else text_le s t

abbrev pub amount_or_zero : Option ShiftBalance → Text → Result Money
amount_or_zero none currency = zero_money currency
amount_or_zero (some b) currency = ok b.amount

abbrev pub closing : Text → Text → Option ShiftBalance → Option ShiftBalance → Result ClosingBalance
closing currency code e d = do
  expected ← amount_or_zero e currency
  declared ← amount_or_zero d currency
  difference ← subtract declared expected
  ok (record {
    payment_method_code = code;
    expected = expected;
    declared = declared;
    difference = difference;
  })

-- The closing balance of one key.
unfoldable pub closing_balance : Option ShiftBalance → Option ShiftBalance → Result ClosingBalance
closing_balance (some e) d = closing e.amount.currency e.payment_method_code (some e) d
closing_balance none (some d) = closing d.amount.currency d.payment_method_code none (some d)
closing_balance none none = err shift_closing_balance_invalid

unfoldable pub closing_balances : Balances → Balances → Balances → Result (List ClosingBalance)
closing_balances expected declared [] = ok []
closing_balances expected declared ((k, _) ∷ keys) = do
  c ← closing_balance (get k expected) (get k declared)
  cs ← closing_balances expected declared keys
  ok (c ∷ cs)

-- The closing balances in the order of their keys.
unfoldable pub reckon : Balances → Balances → Result (List ClosingBalance)
unfolding closing_balances missing sort_entries text_le
reckon expected declared =
    closing_balances expected declared
      (sort_entries text_le (expected ++ missing expected declared))
