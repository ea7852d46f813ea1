-- ===== src/Cash/Balances/Keys.antt =====
-- Keys name a method and a currency, and a sorted map holds what the map held.
use cullen.Prelude.{
  ◌≡◌, ◌≢◌, refl, ap, ◌∙◌, Bool, true, false, ◌&&◌, none, some, [], ◌∷◌, ◌++◌, find?, All, arith,
  length, length-append, Bool-cases, inl, inr, if◌then◌else◌,
}
use cullen.Prelude.Text.{Text, eqb, eqb→eq, eqb_refl}
use cullen.Shared.Money.{is_currency_code}
use cullen.Cash.Balances.Defs.{
  ShiftBalance, Balances, balance_key, get, put, insert_entry, sort_entries, values, is_for,
}

eqb-length : (s t : Text) → length s ≢ length t → eqb s t ≡ false
eqb-length s t h = elim (Bool-cases (eqb s t)) [
  | inl e ↦ absurd (h (ap length (eqb→eq s t e)))
  | inr e ↦ e
]

three_letters : (c : Text) → is_currency_code c ≡ true → length c ≡ 3
unfolding is_currency_code
three_letters [] h = cc
three_letters (a ∷ []) h = cc
three_letters (a ∷ b ∷ []) h = cc
three_letters (a ∷ b ∷ c ∷ []) h = refl
three_letters (a ∷ b ∷ c ∷ d ∷ s) h = cc

-- Since a currency has three letters, no two pairs of a method and a currency share a key.
pub balance_key-eqb :
    (a b c d : Text)
    → is_currency_code c ≡ true
    → is_currency_code d ≡ true
    → eqb (balance_key a c) (balance_key b d) ≡ (eqb a b && eqb c d)
unfolding balance_key eqb
balance_key-eqb [] [] c d hc hd = refl
balance_key-eqb [] (y ∷ b) c d hc hd = ground (
  arith,
  eqb-length c (b ++ (58 ∷ d))
      (λ e. omega (arith, e, three_letters c hc, three_letters d hd, length-append b (58 ∷ d))),
)
balance_key-eqb (x ∷ a) [] c d hc hd = ground (
  arith,
  eqb-length (a ++ (58 ∷ c)) d
      (λ e. omega (arith, e, three_letters c hc, three_letters d hd, length-append a (58 ∷ c))),
)
balance_key-eqb (x ∷ a) (y ∷ b) c d hc hd = ground (arith, balance_key-eqb a b c d hc hd)

pub get-put :
    (k j : Text) (v : ShiftBalance) (bs : Balances)
    → get k (put j v bs) ≡ (if eqb j k then some v else get k bs)
unfolding get put
get-put k j v [] = refl
get-put k j v ((i, b) ∷ bs) =
    ground (arith, get-put k j v bs, eqb→eq i j, eqb→eq i k, eqb→eq j k, eqb_refl i)

-- No key stands twice.
abbrev pub Unique : Balances → Type 0
Unique [] = Unit
Unique ((k, b) ∷ bs) = (get k bs ≡ none) × Unique bs

pub put-Unique : (j : Text) (v : ShiftBalance) (bs : Balances) → Unique bs → Unique (put j v bs)
unfolding put get
put-Unique j v [] u = (refl, tt)
put-Unique j v ((i, b) ∷ bs) u =
    ground (arith, put-Unique j v bs u.1, get-put i j v bs, eqb→eq j i, eqb→eq i j, eqb_refl i)

-- Each entry stands under the key of its own method and currency.
abbrev pub IsKeyed : Text × ShiftBalance → Type 0
IsKeyed e =
    (e.0 ≡ balance_key e.1.payment_method_code e.1.amount.currency)
    × (is_currency_code e.1.amount.currency ≡ true)

pub put-IsKeyed :
    (j : Text) (v : ShiftBalance) (bs : Balances)
    → IsKeyed (j, v)
    → All IsKeyed bs
    → All IsKeyed (put j v bs)
unfolding put
put-IsKeyed j v [] h a = (h, tt)
put-IsKeyed j v ((i, b) ∷ bs) h a = ground (arith, put-IsKeyed j v bs h a.1, eqb→eq i j)

module _ (le : Text → Text → Bool) where
  insert_entry-IsKeyed :
      (e : Text × ShiftBalance) (bs : Balances)
      → IsKeyed e
      → All IsKeyed bs
      → All IsKeyed (insert_entry le e bs)
  unfolding insert_entry
  insert_entry-IsKeyed e [] h a = (h, tt)
  insert_entry-IsKeyed e (x ∷ bs) h a = ground (arith, insert_entry-IsKeyed e bs h a.1)

  pub sort_entries-IsKeyed : (bs : Balances) → All IsKeyed bs → All IsKeyed (sort_entries le bs)
  unfolding sort_entries
  sort_entries-IsKeyed [] a = tt
  sort_entries-IsKeyed (x ∷ bs) a =
      insert_entry-IsKeyed x (sort_entries le bs) a.0 (sort_entries-IsKeyed bs a.1)

  get-insert_entry :
      (k : Text) (e : Text × ShiftBalance) (bs : Balances)
      → get e.0 bs ≡ none
      → get k (insert_entry le e bs) ≡ (if eqb e.0 k then some e.1 else get k bs)
  unfolding insert_entry get
  get-insert_entry k e [] h = refl
  get-insert_entry k e ((j, b) ∷ bs) h =
      ground (arith, get-insert_entry k e bs, eqb→eq j k, eqb→eq e.0 k, eqb_refl k)

  pub get-sort_entries :
      (k : Text) (bs : Balances) → Unique bs → get k (sort_entries le bs) ≡ get k bs
  unfolding sort_entries get
  get-sort_entries k [] u = refl
  get-sort_entries k ((j, b) ∷ bs) u =
      get-insert_entry k (j, b) (sort_entries le bs) (get-sort_entries j bs u.1 ∙ u.0)
      ∙ ap (λ o. if eqb j k then some b else o) (get-sort_entries k bs u.1)

-- Looking for a method and a currency among keyed entries is looking for their key.
pub find-values :
    (a c : Text) (bs : Balances)
    → is_currency_code c ≡ true
    → All IsKeyed bs
    → find? (is_for a c) (values bs) ≡ get (balance_key a c) bs
unfolding get
find-values a c [] h all = refl
find-values a c ((k, b) ∷ bs) h all = ground (
  arith,
  find-values a c bs h all.1,
  balance_key-eqb b.payment_method_code a b.amount.currency c all.0.1 h,
  ap (λ s. eqb s (balance_key a c)) all.0.0,
)
