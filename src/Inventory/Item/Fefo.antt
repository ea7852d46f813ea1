-- ===== src/Inventory/Item/Fefo.antt =====
-- What `allocateForIssue` promises.
use cullen.Prelude.{
  ◌≡◌, refl, sym, ap, subst, ◌∙◌, ◌⊎◌, inl, inr, Bool, true, false, some, List, [], ◌∷◌, All, arith,
  Bool-cases, if◌then◌else◌,
}
use cullen.Prelude.Int.{ℤ, pos, ◌+ℤ◌, ◌-ℤ◌, ◌≤ℤ◌, ◌<ℤ◌, leb_ℤ, eqb_ℤ, int_laws}
use cullen.Prelude.Text.{Text, integer}
use cullen.Shared.Errors.{stock_insufficient}
use cullen.Shared.Result as Result
use cullen.Shared.Result.{Result, ok, err, >>=-eq-ok, ok_injective}
use cullen.Shared.Quantity.{Quantity, from_scaled}
use cullen.Inventory.Item.State.{StockItem, Batch, calculate_balance}
use cullen.Inventory.Item.Methods.{balance_for_batch}
use cullen.Inventory.Item.Allocate.{
  Allocation, min_ℤ, allocate_from, batch_le, insert_batch, sort_batches, allocate_for_issue,
}

-- What a list of allocations gives in all.
abbrev pub allocated : List Allocation → ℤ
allocated [] = pos 0
allocated (a ∷ rest) = a.quantity.scaled_value +ℤ allocated rest

-- An allocation takes something from a batch of the item, and no more than it has.
abbrev pub IsCovered : StockItem → Allocation → Type 0
IsCovered s a =
    (b : Text) × (q : Quantity) × (a.batch_id ≡ some b)
    × (balance_for_batch b s ≡ ok q)
    × (pos 1 ≤ℤ a.quantity.scaled_value)
    × (a.quantity.scaled_value ≤ℤ q.scaled_value)
    × (a.quantity.scale ≡ s.quantity_scale)

-- The balance of a batch can be read.
abbrev pub IsReadable : StockItem → Batch → Type 0
IsReadable s b = (q : Quantity) × (balance_for_batch b.id s ≡ ok q)

-- What a batch can give: its balance, or nothing if that is not positive.
abbrev usable : Result Quantity → ℤ
usable (ok q) = if leb_ℤ q.scaled_value (pos 0) then pos 0 else q.scaled_value
usable (err e) = pos 0

abbrev pub usable_total : StockItem → List Batch → ℤ
usable_total s [] = pos 0
usable_total s (b ∷ bs) = usable (balance_for_batch b.id s) +ℤ usable_total s bs

-- Either the whole quantity is allocated, or the item has too little of it.
abbrev pub Outcome : StockItem → List Batch → ℤ → Result (List Allocation) → Type 0
Outcome s bs n (ok parts) = (allocated parts ≡ n) × All (IsCovered s) parts
Outcome s bs n (err e) = (e ≡ stock_insufficient) × (usable_total s bs <ℤ n)

sub_self : (a : ℤ) → a -ℤ a ≡ pos 0
sub_self a = omega int_laws

pos-ne_zero : (z : ℤ) → pos 1 ≤ℤ z → eqb_ℤ z (pos 0) ≡ false
pos-ne_zero z h = ground arith

add_difference : (a b : ℤ) → a +ℤ (b -ℤ a) ≡ b
add_difference a b = omega int_laws

-- A balance that was read is a safe integer on a scale that fits.
balance-from_scaled :
    (b : Text) (s : StockItem) (q : Quantity) (n : ℤ)
    → balance_for_batch b s ≡ ok q
    → pos 1 ≤ℤ n
    → n ≤ℤ q.scaled_value
    → from_scaled (integer n) (integer (pos s.quantity_scale))
      ≡ ok (record { scaled_value = n; scale = s.quantity_scale })
unfolding balance_for_batch calculate_balance from_scaled
balance-from_scaled b s q n h lo hi = ground arith

abbrev part : Batch → ℤ → StockItem → Allocation
part b n s = record {
  batch_id = some b.id;
  quantity = record { scaled_value = n; scale = s.quantity_scale };
}

module _ (b : Batch) (bs : List Batch) (n : ℤ) (s : StockItem) (q : Quantity)
    (read : balance_for_batch b.id s ≡ ok q) where
  allocate_from-skip : q.scaled_value ≤ℤ pos 0 → allocate_from (b ∷ bs) n s ≡ allocate_from bs n s
  unfolding allocate_from
  allocate_from-skip h = ground arith

  allocate_from-last :
      pos 1 ≤ℤ n → n ≤ℤ q.scaled_value → allocate_from (b ∷ bs) n s ≡ ok (part b n s ∷ [])
  unfolding allocate_from
  allocate_from-last lo hi =
      let e = balance-from_scaled b.id s q n read lo hi in ground (arith, e, sub_self n)

  allocate_from-next :
      pos 1 ≤ℤ q.scaled_value
      → q.scaled_value <ℤ n
      → allocate_from (b ∷ bs) n s
        ≡ Result.◌>>=◌
            (allocate_from bs (n -ℤ q.scaled_value) s)
            (λ rest. ok (part b q.scaled_value s ∷ rest))
  unfolding allocate_from
  allocate_from-next lo hi =
      let e = balance-from_scaled b.id s q q.scaled_value read lo (omega arith) in
      let used : min_ℤ q.scaled_value n ≡ q.scaled_value = ground arith in
      let more : eqb_ℤ (n -ℤ q.scaled_value) (pos 0) ≡ false =
        pos-ne_zero (n -ℤ q.scaled_value) (omega int_laws) in
      let usable : leb_ℤ q.scaled_value (pos 0) ≡ false = ground arith in
      ground (arith, e, used, more, usable)

usable-eq_pos :
    (b : Batch) (s : StockItem) (q : Quantity)
    → balance_for_batch b.id s ≡ ok q
    → pos 1 ≤ℤ q.scaled_value
    → usable (balance_for_batch b.id s) ≡ q.scaled_value
usable-eq_pos b s q read lo = ground arith

usable-eq_zero :
    (b : Batch) (s : StockItem) (q : Quantity)
    → balance_for_batch b.id s ≡ ok q
    → q.scaled_value ≤ℤ pos 0
    → usable (balance_for_batch b.id s) ≡ pos 0
usable-eq_zero b s q read lo = ground arith

lt_of_usable :
    (b : Batch) (s : StockItem) (q : Quantity)
    → balance_for_batch b.id s ≡ ok q
    → (n t : ℤ) → pos 1 ≤ℤ q.scaled_value
    → t <ℤ n -ℤ q.scaled_value
    → usable (balance_for_batch b.id s) +ℤ t <ℤ n
lt_of_usable b s q read n t lo less =
    subst (λ z. z +ℤ t <ℤ n) (sym (usable-eq_pos b s q read lo)) (omega int_laws)

dec_leℤ : (a b : ℤ) → (a ≤ℤ b) ⊎ (b <ℤ a)
dec_leℤ a b = elim (Bool-cases (leb_ℤ a b)) [
  | inl h ↦ inl (ground arith)
  | inr h ↦ inr (ground arith)
]

add_zero : (a : ℤ) → a +ℤ pos 0 ≡ a
add_zero a = omega int_laws

exchange : (a b c : ℤ) → a +ℤ (b +ℤ c) ≡ b +ℤ (a +ℤ c)
exchange a b c = omega int_laws

zero_add : (a : ℤ) → a ≡ pos 0 +ℤ a
zero_add a = omega int_laws

skip-Outcome :
    (b : Batch) (bs : List Batch) (n : ℤ) (s : StockItem) (q : Quantity)
    (r : Result (List Allocation))
    → balance_for_batch b.id s ≡ ok q
    → q.scaled_value ≤ℤ pos 0
    → Outcome s bs n r
    → Outcome s (b ∷ bs) n r
skip-Outcome b bs n s q (ok parts) read lo w = w
skip-Outcome b bs n s q (err e) read lo (short, less) = (
  short,
  subst (λ z. z <ℤ n)
      (zero_add (usable_total s bs)
        ∙ ap (λ z. z +ℤ usable_total s bs) (sym (usable-eq_zero b s q read lo)))
      less,
)

extend-Outcome :
    (b : Batch) (bs : List Batch) (n : ℤ) (s : StockItem) (q : Quantity)
    (r : Result (List Allocation))
    → balance_for_batch b.id s ≡ ok q
    → pos 1 ≤ℤ q.scaled_value
    → Outcome s bs (n -ℤ q.scaled_value) r
    → Outcome s (b ∷ bs) n (Result.◌>>=◌ r (λ rest. ok (part b q.scaled_value s ∷ rest)))
extend-Outcome b bs n s q (ok parts) read lo (sum, all) = (
  ap (λ z. q.scaled_value +ℤ z) sum ∙ add_difference q.scaled_value n,
  ((b.id, q, refl, read, lo, omega arith, refl), all),
)
extend-Outcome b bs n s q (err e) read lo (short, less) =
    (short, lt_of_usable b s q read n (usable_total s bs) lo less)

allocate_from-Outcome :
    (bs : List Batch) (n : ℤ) (s : StockItem)
    → pos 1 ≤ℤ n
    → All (IsReadable s) bs
    → Outcome s bs n (allocate_from bs n s)
unfolding allocate_from
allocate_from-Outcome [] n s lo all = (refl, omega int_laws)
allocate_from-Outcome (b ∷ bs) n s lo ((q, read), all) = elim (dec_leℤ q.scaled_value (pos 0)) [
  | inl none_left ↦
      subst (Outcome s (b ∷ bs) n) (sym (allocate_from-skip b bs n s q read none_left)) (
        skip-Outcome b bs n s q (allocate_from bs n s) read none_left
          (allocate_from-Outcome bs n s lo all))
  | inr some_left ↦ elim (dec_leℤ n q.scaled_value) [
    | inl enough ↦
        subst (Outcome s (b ∷ bs) n) (sym (allocate_from-last b bs n s q read lo enough))
          (add_zero n, ((b.id, q, refl, read, lo, enough, refl), tt))
    | inr more ↦
        subst (Outcome s (b ∷ bs) n) (sym (allocate_from-next b bs n s q read (omega arith) more)) (
          extend-Outcome b bs n s q (allocate_from bs (n -ℤ q.scaled_value) s) read (omega arith)
            (allocate_from-Outcome bs (n -ℤ q.scaled_value) s (omega int_laws) all))
  ]
]

module _ (locale_le : Text → Text → Bool) where
  usable_total-insert_batch :
      (s : StockItem) (b : Batch) (bs : List Batch)
      → usable_total s (insert_batch locale_le b bs) ≡ usable_total s (b ∷ bs)
  unfolding insert_batch
  usable_total-insert_batch s b [] = refl
  usable_total-insert_batch s b (x ∷ bs) = elim (Bool-cases (batch_le locale_le b x)) [
    | inl h ↦ ground (arith, h)
    | inr h ↦ ground (
      arith,
      h,
      usable_total-insert_batch s b bs,
      exchange (usable (balance_for_batch x.id s)) (usable (balance_for_batch b.id s))
          (usable_total s bs),
    )
  ]

  usable_total-sort_batches :
      (s : StockItem) (bs : List Batch)
      → usable_total s (sort_batches locale_le bs) ≡ usable_total s bs
  unfolding sort_batches
  usable_total-sort_batches s [] = refl
  usable_total-sort_batches s (b ∷ bs) =
      usable_total-insert_batch s b (sort_batches locale_le bs)
      ∙ ap (λ z. usable (balance_for_batch b.id s) +ℤ z) (usable_total-sort_batches s bs)

  All-insert_batch :
      (P : Batch → Type 0) (b : Batch) (bs : List Batch)
      → P b
      → All P bs
      → All P (insert_batch locale_le b bs)
  unfolding insert_batch
  All-insert_batch P b [] h all = (h, tt)
  All-insert_batch P b (x ∷ bs) h all = ground (arith, h, all, All-insert_batch P b bs h all.1)

  All-sort_batches :
      (P : Batch → Type 0) (bs : List Batch) → All P bs → All P (sort_batches locale_le bs)
  unfolding sort_batches
  All-sort_batches P [] all = tt
  All-sort_batches P (b ∷ bs) all =
      All-insert_batch P b (sort_batches locale_le bs) all.0 (All-sort_batches P bs all.1)

  same_total :
      (s : StockItem) (bs cs : List Batch) (n : ℤ) (r : Result (List Allocation))
      → usable_total s bs ≡ usable_total s cs
      → Outcome s bs n r
      → Outcome s cs n r
  same_total s bs cs n (ok parts) e w = w
  same_total s bs cs n (err x) e (short, less) = (short, subst (λ z. z <ℤ n) e less)

  -- For an item that tracks batches, whose balances can all be read, the allocation of a positive
  -- quantity on the item's scale either succeeds or finds too little stock. If it succeeds the parts add
  -- up to the quantity exactly, and each takes a positive amount from a registered batch, at most its
  -- balance. If it fails the error is that of insufficient stock, and the positive balances of
  -- the batches add up to less than the quantity.
  pub allocation_exact :
      (q : Quantity) (s : StockItem)
      → s.tracks_batches ≡ true
      → q.scale ≡ s.quantity_scale
      → pos 1 ≤ℤ q.scaled_value
      → All (IsReadable s) s.batches
      → Outcome s s.batches q.scaled_value (allocate_for_issue locale_le q s)
  unfolding allocate_for_issue
  allocation_exact q s tracked scaled lo all =
      let sorted = sort_batches locale_le s.batches in
      let e : allocate_for_issue locale_le q s ≡ allocate_from sorted q.scaled_value s =
        ground arith in
      subst (Outcome s s.batches q.scaled_value) (sym e) (
        same_total s sorted s.batches q.scaled_value (allocate_from sorted q.scaled_value s)
          (usable_total-sort_batches s s.batches)
          (allocate_from-Outcome sorted q.scaled_value s lo
            (All-sort_batches (IsReadable s) s.batches all)))
