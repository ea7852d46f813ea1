-- ===== src/Inventory/Count/Matching.antt =====
-- What the check of `close` says of the differences.
use cullen.Prelude.{
  ◌≡◌, refl, sym, subst, ap, ◌∙◌, inl, inr, Bool, true, false, not, ◌||◌, ℕ, Option, none, some,
  find?, List, [], ◌∷◌, any, map, All, push, arith, Bool-cases, Option-cases,
}
use cullen.Prelude.Int.{pos, eqb_ℤ→eq}
use cullen.Prelude.Double.{of_ℤ, is_negative, subtract_doubles, eqb_double→eq}
use cullen.Prelude.Text.{Text, eqb, eqb→eq, eqb_refl, Number, integer, not_integer}
use cullen.Inventory.Maps.{set_add}
use cullen.Inventory.Count.State.{CountLine, Difference}
use cullen.Inventory.Count.Methods.{
  set_of, is_difference_of, same_batch, is_scale, is_version, line_of, is_mismatch, line_ids,
  difference_ids, do_not_match,
}

-- The difference is that of the recorded line that its identifier finds: of its item and batch, in its
-- scale, and what was counted less what was expected, as numbers are subtracted.
pub record IsFaithful (ls : List CountLine) (d : Difference) : Type 0 where
  pub line : CountLine
  pub recorded : line_of d ls ≡ some line
  pub identified : line.id ≡ d.line_id
  pub item : d.stock_item_id ≡ line.stock_item_id
  pub batch : d.batch_id ≡ line.batch_id
  pub scale : d.quantity_scale ≡ integer (pos line.counted_quantity.scale)
  pub counted : d.counted_scaled ≡ of_ℤ line.counted_quantity.scaled_value
  pub expected : is_negative d.expected_scaled ≡ false
  pub balance : d.difference_scaled ≡ subtract_doubles d.counted_scaled d.expected_scaled
  pub version : is_version d.stock_availability_version ≡ true

-- Some difference has the identifier of this line.
abbrev pub IsAccounted : List Difference → CountLine → Type 0
IsAccounted ds l = any (λ d. eqb l.id d.line_id) ds ≡ true

same_batch→eq : (a b : Option Text) → same_batch a b ≡ true → a ≡ b
same_batch→eq none none h = refl
same_batch→eq none (some b) h = cc
same_batch→eq (some a) none h = cc
same_batch→eq (some a) (some b) h = ap some (eqb→eq a b h)

is_scale→eq : (s : Number) (n : ℕ) → is_scale s n ≡ true → s ≡ integer (pos n)
is_scale→eq (integer z) n h = ap integer (eqb_ℤ→eq z (pos n) h)
is_scale→eq not_integer n h = cc

find?-passes :
    (p : CountLine → Bool) (ls : List CountLine) (l : CountLine) → find? p ls ≡ some l → p l ≡ true
find?-passes p [] l h = cc
find?-passes p (x ∷ ls) l h = ground (arith, h, find?-passes p ls l, ap p)

faithful : (ls : List CountLine) (d : Difference) → is_mismatch ls d ≡ false → IsFaithful ls d
unfolding line_of
faithful ls d h = elim (Option-cases (line_of d ls)) [
  | inl n ↦ absurd (ground (arith, h, n))
  | inr (l, e) ↦
      let ok : is_difference_of d l ≡ true = ground (arith, h, e) in
      record {
        line = l;
        recorded = e;
        identified = eqb→eq l.id d.line_id (find?-passes (λ x. eqb x.id d.line_id) ls l e);
        item = eqb→eq d.stock_item_id l.stock_item_id (ground (arith, ok));
        batch = same_batch→eq d.batch_id l.batch_id (ground (arith, ok));
        scale = is_scale→eq d.quantity_scale l.counted_quantity.scale (ground (arith, ok));
        counted =
            eqb_double→eq d.counted_scaled (of_ℤ l.counted_quantity.scaled_value)
              (ground (arith, ok));
        expected = ground (arith, ok);
        balance =
            eqb_double→eq d.difference_scaled (subtract_doubles d.counted_scaled d.expected_scaled)
              (ground (arith, ok));
        version = ground (arith, ok);
      }
]

none_bad :
    {A : Type 0} (p : A → Bool) (P : A → Type 0)
    → ((a : A) → p a ≡ false → P a)
    → (xs : List A) → any p xs ≡ false
    → All P xs
none_bad p P f [] h = tt
none_bad p P f (x ∷ xs) h = (f x (ground (arith, h)), none_bad p P f xs (ground (arith, h)))

any-push : (p : Text → Bool) (xs : List Text) (x : Text) → any p (push xs x) ≡ any p xs || p x
any-push p [] x = ground arith
any-push p (y ∷ ys) x = ground (arith, any-push p ys x)

set_add-has : (t x : Text) (xs : List Text) → any (eqb t) (set_add x xs) ≡ any (eqb t) xs || eqb t x
unfolding set_add
set_add-has t x xs = elim (Bool-cases (any (eqb x) xs)) [
  | inl h ↦
      let same : eqb t x ≡ true → any (eqb t) xs ≡ true =
        λ e. subst (λ y. any (eqb y) xs ≡ true) (sym (eqb→eq t x e)) h in
      ground (arith, h, same)
  | inr h ↦ ground (arith, h, any-push (eqb t) xs x)
]

-- A set has the members of its list, and those it had.
set_of-has :
    (t : Text) (ts seen : List Text)
    → any (eqb t) (set_of ts seen) ≡ any (eqb t) seen || any (eqb t) ts
unfolding set_of
set_of-has t [] seen = ground arith
set_of-has t (x ∷ xs) seen = ground (arith, set_of-has t xs (set_add x seen), set_add-has t x seen)

any-map :
    {A : Type 0} (p : Text → Bool) (f : A → Text) (xs : List A)
    → any p (map f xs) ≡ any (λ x. p (f x)) xs
any-map p f [] = refl
any-map p f (x ∷ xs) = ap (λ b. p (f x) || b) (any-map p f xs)

-- A test that no member of a list passes, fails at what is in the list.
member_passes :
    (p : Text → Bool) (t : Text) (ts : List Text)
    → any p ts ≡ false
    → any (eqb t) ts ≡ true
    → p t ≡ false
member_passes p t [] h m = ground (arith, m)
member_passes p t (x ∷ xs) h m =
    let same : eqb t x ≡ true → p t ≡ p x = λ e. ap p (eqb→eq t x e) in
    ground (arith, h, m, same, member_passes p t xs)

accounted :
    (ds : List Difference) (ls : List CountLine) (l : CountLine)
    → any (λ id. not (any (eqb id) (difference_ids ds))) (line_ids ls) ≡ false
    → any (eqb l.id) (line_ids ls) ≡ true
    → IsAccounted ds l
accounted ds ls l h m =
    let out = member_passes (λ id. not (any (eqb id) (difference_ids ds))) l.id (line_ids ls) h m in
    sym (any-map (eqb l.id) (λ d. d.line_id) ds)
    ∙ sym (set_of-has l.id (map (λ d. d.line_id) ds) [])
    ∙ ground (arith, out)

all-IsAccounted :
    (ds : List Difference) (ls ms : List CountLine)
    → any (λ id. not (any (eqb id) (difference_ids ds))) (line_ids ls) ≡ false
    → ((l : CountLine) → any (λ m. eqb l.id m.id) ms ≡ true → any (λ m. eqb l.id m.id) ls ≡ true)
    → All (IsAccounted ds) ms
all-IsAccounted ds ls [] h sub = tt
all-IsAccounted ds ls (m ∷ ms) h sub =
    let here : any (eqb m.id) (line_ids ls) ≡ true =
      set_of-has m.id (map (λ l. l.id) ls) []
      ∙ any-map (eqb m.id) (λ l. l.id) ls
      ∙ sub m (ground (arith, eqb_refl m.id)) in
    (accounted ds ls m h here, all-IsAccounted ds ls ms h (λ l k. sub l (ground (arith, k))))

-- Differences that pass the check are those of recorded lines, and every line's identifier is among theirs.
pub match-All :
    (ds : List Difference) (ls : List CountLine)
    → do_not_match ds ls ≡ false
    → All (IsFaithful ls) ds × All (IsAccounted ds) ls
unfolding do_not_match
match-All ds ls h = (
  none_bad (is_mismatch ls) (IsFaithful ls) (faithful ls) ds (ground (arith, h)),
  all-IsAccounted ds ls ls (ground (arith, h)) (λ l k. k),
)

repeated-ids :
    (d : Difference) (ds : List Difference) → difference_ids (d ∷ d ∷ ds) ≡ difference_ids (d ∷ ds)
unfolding set_of set_add
repeated-ids d ds = ground (arith, eqb_refl d.line_id)

-- The check does not see that a difference is repeated.
pub repeated-match :
    (d : Difference) (ds : List Difference) (ls : List CountLine)
    → do_not_match (d ∷ d ∷ ds) ls ≡ do_not_match (d ∷ ds) ls
unfolding do_not_match
repeated-match d ds ls = ground (arith, repeated-ids d ds)
