-- ===== src/Cash/Shift/Covered.antt =====
-- shift.ts: which keys `Shift.close` reckons.
use cullen.Prelude.{
  ◌≡◌, refl, sym, ap, ◌∙◌, Bool, true, false, ◌||◌, List, [], ◌∷◌, ◌++◌, any, All, arith, some,
}
use cullen.Prelude.Text.{Text, eqb, eqb→eq, eqb_refl}
use cullen.Shared.Result.{ok, ok_injective}
use cullen.Cash.Balances.{ShiftBalance, Balances, balance_key, get, put, insert_entry, sort_entries}
use cullen.Cash.Balances.Keys.{get-put}
use cullen.Cash.Shift.Reckoning.{
  DeclaredBalance, has_key, declare_balances, map_of, missing, text_le,
}

abbrev pub names : Balances → List Text
names [] = []
names ((k, b) ∷ bs) = k ∷ names bs

abbrev pub key_of : ShiftBalance → Text
key_of b = balance_key b.payment_method_code b.amount.currency

abbrev pub declared_key : DeclaredBalance → Text
declared_key b = balance_key b.method.code b.amount.currency

abbrev pub entry_of : DeclaredBalance → ShiftBalance
entry_of b = record { payment_method_code = b.method.code; amount = b.amount }

has-names : (k : Text) (bs : Balances) → has_key (get k bs) ≡ any (eqb k) (names bs)
unfolding get
has-names k [] = refl
has-names k ((j, b) ∷ bs) =
    ground (arith, has-names k bs, eqb→eq j k, eqb→eq k j, eqb_refl k, eqb_refl j)

any-names-append :
    (p : Text → Bool) (xs ys : Balances)
    → any p (names (xs ++ ys)) ≡ any p (names xs) || any p (names ys)
any-names-append p [] ys = refl
any-names-append p ((k, b) ∷ xs) ys = ground (arith, any-names-append p xs ys)

module _ (le : Text → Text → Bool) (p : Text → Bool) where
  any-insert_entry :
      (e : Text × ShiftBalance) (bs : Balances)
      → any p (names (insert_entry le e bs)) ≡ p e.0 || any p (names bs)
  unfolding insert_entry
  any-insert_entry (k, b) [] = refl
  any-insert_entry (k, b) ((j, c) ∷ bs) = ground (arith, any-insert_entry (k, b) bs)

  any-sort_entries : (bs : Balances) → any p (names (sort_entries le bs)) ≡ any p (names bs)
  unfolding sort_entries
  any-sort_entries [] = refl
  any-sort_entries ((k, b) ∷ bs) =
      any-insert_entry (k, b) (sort_entries le bs) ∙ ap (λ r. p k || r) (any-sort_entries bs)

any-missing :
    (k : Text) (es ds : Balances)
    → any (eqb k) (names es) || any (eqb k) (names (missing es ds))
      ≡ any (eqb k) (names es) || any (eqb k) (names ds)
unfolding missing
any-missing k es [] = refl
any-missing k es ((j, b) ∷ ds) =
    let same : eqb k j ≡ true → any (eqb k) (names es) ≡ any (eqb j) (names es) =
      λ h. ap (λ t. any (eqb t) (names es)) (eqb→eq k j h) in
    ground (arith, any-missing k es ds, has-names j es, same)

-- The keys that are reckoned are those of either map.
pub any-reckoned :
    (k : Text) (es ds : Balances)
    → any (eqb k) (names (sort_entries text_le (es ++ missing es ds)))
      ≡ has_key (get k es) || has_key (get k ds)
any-reckoned k es ds = ground (
  arith,
  any-sort_entries text_le (eqb k) (es ++ missing es ds),
  any-names-append (eqb k) es (missing es ds),
  any-missing k es ds,
  has-names k es,
  has-names k ds,
)

has-put :
    (k j : Text) (v : ShiftBalance) (bs : Balances)
    → has_key (get k (put j v bs)) ≡ eqb k j || has_key (get k bs)
has-put k j v bs = ground (arith, get-put k j v bs, eqb→eq j k, eqb→eq k j, eqb_refl k, eqb_refl j)

has-map_of :
    (k : Text) (xs : List ShiftBalance) (acc : Balances)
    → has_key (get k (map_of xs acc)) ≡ has_key (get k acc) || any (λ x. eqb k (key_of x)) xs
unfolding map_of
has-map_of k [] acc = ground arith
has-map_of k (x ∷ xs) acc =
    ground (arith, has-map_of k xs (put (key_of x) x acc), has-put k (key_of x) x acc)

-- The map of the expected balances has their keys.
pub has-expected :
    (k : Text) (xs : List ShiftBalance)
    → has_key (get k (map_of xs [])) ≡ any (λ x. eqb k (key_of x)) xs
unfolding get
has-expected k xs = has-map_of k xs []

-- What declaring balances leads to.
pub record IsDeclared (bs : List DeclaredBalance) (acc out : Balances) : Type 0 where
  pub keys :
      (k : Text) → has_key (get k out) ≡ has_key (get k acc) || any (λ b. eqb k (declared_key b)) bs
  pub kept : (k : Text) (v : ShiftBalance) → get k acc ≡ some v → get k out ≡ some v
  pub entries : All (λ b. get (declared_key b) out ≡ some (entry_of b)) bs

accepted :
    (b : DeclaredBalance) (bs : List DeclaredBalance) (acc out : Balances)
    → declare_balances acc (b ∷ bs) ≡ ok out
    → (has_key (get (declared_key b) acc) ≡ false)
      × (declare_balances (put (declared_key b) (entry_of b) acc) bs ≡ ok out)
unfolding declare_balances
accepted b bs acc out h = ground (arith, h)

kept_by_put :
    (k : Text) (v : ShiftBalance) (b : DeclaredBalance) (acc : Balances)
    → has_key (get (declared_key b) acc) ≡ false
    → get k acc ≡ some v
    → get k (put (declared_key b) (entry_of b) acc) ≡ some v
kept_by_put k v b acc fresh e =
    let other : eqb (declared_key b) k ≡ true → get (declared_key b) acc ≡ get k acc =
      λ h. ap (λ t. get t acc) (eqb→eq (declared_key b) k h) in
    ground (arith, get-put k (declared_key b) (entry_of b) acc, other, fresh, e)

put_entry :
    (b : DeclaredBalance) (acc : Balances)
    → get (declared_key b) (put (declared_key b) (entry_of b) acc) ≡ some (entry_of b)
put_entry b acc =
    ground
      (arith, get-put (declared_key b) (declared_key b) (entry_of b) acc, eqb_refl (declared_key b))

pub declared :
    (bs : List DeclaredBalance) (acc out : Balances)
    → declare_balances acc bs ≡ ok out
    → IsDeclared bs acc out
unfolding declare_balances
declared [] acc out h = record {
  keys = λ k. ground (arith, ap (λ o. has_key (get k o)) (ok_injective h));
  kept = λ k v e. ap (get k) (sym (ok_injective h)) ∙ e;
  entries = tt;
}
declared (b ∷ bs) acc out h =
    let (fresh, rest) = accepted b bs acc out h in
    let w = declared bs (put (declared_key b) (entry_of b) acc) out rest in
    record {
      keys = λ k. ground (arith, w.keys k, has-put k (declared_key b) (entry_of b) acc);
      kept = λ k v e. w.kept k v (kept_by_put k v b acc fresh e);
      entries = (w.kept (declared_key b) (entry_of b) (put_entry b acc), w.entries);
    }
