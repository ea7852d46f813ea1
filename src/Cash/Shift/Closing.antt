-- ===== src/Cash/Shift/Closing.antt =====
-- What closing a shift records.
use cullen.Prelude.{◌+◌, ◌≡◌, Bool, ◌||◌, Option, some, List, [], ◌∷◌, All, any}
use cullen.Prelude.Int.{◌-ℤ◌}
use cullen.Prelude.Text.{Text, eqb}
use cullen.Shared.Result.{ok}
use cullen.Shared.Money.{Money}
use cullen.Cash.Balances.{ShiftBalance, Balances, get, expected_balances}
use cullen.Cash.Balances.Sum.{units}
use cullen.Cash.Shift.{
  Shift, ClosingBalance, CloseProps, closed_shift, open_shift, closing_balance, closing_balances,
  map_of,
}
use cullen.Cash.Shift.Covered.{key_of, declared_key, entry_of, declared}

-- The difference is what was declared less what was expected, all in one currency.
abbrev pub IsReckoned : ClosingBalance → Type 0
IsReckoned b =
    (b.difference.minor_units ≡ b.declared.minor_units -ℤ b.expected.minor_units)
    × (b.declared.currency ≡ b.expected.currency)
    × (b.difference.currency ≡ b.expected.currency)

-- The amounts are those of the two entries, zero if there is none.
abbrev pub HasAmounts : Option ShiftBalance → Option ShiftBalance → ClosingBalance → Type 0
HasAmounts e d b = (b.expected.minor_units ≡ units e) × (b.declared.minor_units ≡ units d)

-- The closing balance of a key compares what the two maps hold there.
abbrev pub IsBalanceOf : Balances → Balances → Text → ClosingBalance → Type 0
IsBalanceOf e d k b =
    (closing_balance (get k e) (get k d) ≡ ok b) × HasAmounts (get k e) (get k d) b × IsReckoned b

-- The closing balances are those of the keys, one by one.
abbrev pub AreBalancesOf : Balances → Balances → List Text → List ClosingBalance → Type 0
AreBalancesOf e d [] [] = Unit
AreBalancesOf e d [] (b ∷ bs) = ⊥
AreBalancesOf e d (k ∷ ks) [] = ⊥
AreBalancesOf e d (k ∷ ks) (b ∷ bs) = IsBalanceOf e d k b × AreBalancesOf e d ks bs

module _ (locale_le : Text → Text → Bool) where
  -- What a call of `close` that succeeds has computed, and what it leaves.
  pub record IsClosed (p : CloseProps) (s e : Shift) : Type 0 where
    pub expected : List ShiftBalance
    pub computed : expected_balances locale_le s.movements ≡ ok expected
    pub declared : Balances
    pub accepted : All (λ b. get (declared_key b) declared ≡ some (entry_of b)) p.declared_balances
    pub keys : List Text
    pub complete :
        (k : Text)
        → any (eqb k) keys
          ≡ any (λ x. eqb k (key_of x)) expected
            || any (λ b. eqb k (declared_key b)) p.declared_balances
    pub balances : List ClosingBalance
    pub stored : e.closing_balances ≡ some balances
    pub reckoned : AreBalancesOf (map_of expected []) declared keys balances
    pub was_open : s.status ≡ open_shift
    pub is_closed : e.status ≡ closed_shift
    pub movements : e.movements ≡ s.movements
    pub version : e.version ≡ s.version + 1
