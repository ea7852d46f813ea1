-- ===== src/Inventory/Count/Frozen.antt =====
-- What holds of every stock count, and that its differences are settled when it is closed.
use cullen.Prelude.{
  ◌+◌, ◌≡◌, refl, sym, subst, ap, ◌∙◌, Bool, true, false, Option, none, some, List, [], ◌∷◌, length,
  length-push, push, All, arith, Bool-cases, inl, inr, is_empty, if◌then◌else◌,
}
use cullen.Prelude.Text.{Text, Date}
use cullen.Shared.Result.{ok, Result-cases, >>=-eq-ok, ok_injective, require_text}
use cullen.Shared.Errors.{
  stock_count_id_required, stock_count_actor_required, stock_count_origin_node_required,
}
use cullen.Inventory.Maps.{map_set}
use cullen.Inventory.Count.State.{
  StockCount, CountProps, open_count, CountStatus, counted, approved, CountLine, Difference,
  CountEvent, lines, line_key, create_line,
}
use cullen.Inventory.Count.Methods.{
  record_line, close_count, approve, reject, ApprovalProps, CountCall, line_call, close_call,
  approve_call, reject_call, after_count_call, after_count_calls, is_open_count, count_date,
  do_not_match, or_no_differences,
}
use cullen.Inventory.Count.Matching.{IsFaithful, IsAccounted, match-All, repeated-match}

-- The differences that the count has are those of its lines, and every line has its identifier among them.
abbrev pub IsSettled : StockCount → Type 0
IsSettled c =
    (ds : List Difference) × (c.differences ≡ some ds)
    × All (IsFaithful (lines c)) ds
    × All (IsAccounted ds) (lines c)

abbrev pub is_approved : CountStatus → Bool
is_approved s = elim s [ approved ↦ true | _ ↦ false ]

abbrev is_some : {A : Type 0} → Option A → Bool
is_some none = false
is_some (some a) = true

pub record CountInv (c : StockCount) : Type 0 where
  pub settled : is_open_count c.status ≡ false → IsSettled c
  pub told : length c.events ≡ (if is_approved c.status then 1 else 0)
  pub signed : is_some c.approved_by ≡ is_approved c.status

record_line-Inv : (l : CountLine) (c : StockCount) → CountInv c → CountInv (record_line l c).1
unfolding record_line
record_line-Inv l c v = elim (Bool-cases (is_open_count c.status)) [
  | inr shut ↦ subst CountInv (ground (arith, shut)) v
  | inl go ↦ elim (Result-cases (create_line l)) [
    | inr (e, f) ↦ subst CountInv (ground (arith, go, f)) v
    | inl (x, f) ↦
        let e = record c {
          line_map = map_set (line_key x) x c.line_map;
          version = c.version + 1;
        } in
        let w : CountInv e = record {
          settled = λ h. absurd (ground (arith, h, go));
          told = v.told;
          signed = v.signed;
        } in
        subst CountInv (ground (arith, go, f)) w
  ]
]

close_count-Inv :
    (ds : List Difference) (t : Date) (c : StockCount)
    → CountInv c
    → CountInv (close_count ds t c).1
unfolding close_count
close_count-Inv ds t c v = elim (Bool-cases (is_open_count c.status)) [
  | inr shut ↦ subst CountInv (ground (arith, shut)) v
  | inl go ↦ elim (Bool-cases (is_empty c.line_map)) [
    | inl no_line ↦ subst CountInv (ground (arith, go, no_line)) v
    | inr some_line ↦ elim (Bool-cases (do_not_match ds (lines c))) [
      | inl bad ↦ subst CountInv (ground (arith, go, some_line, bad)) v
      | inr good ↦ elim (Result-cases (count_date t)) [
        | inr (x, f) ↦
            let e = record c { differences = some ds } in
            let w : CountInv e = record {
              settled = λ h. absurd (ground (arith, h, go));
              told = v.told;
              signed = v.signed;
            } in
            subst CountInv (ground (arith, go, some_line, good, f)) w
        | inl (d, f) ↦
            let e = record c {
              differences = some ds;
              closed_at = some d;
              status = counted;
              version = c.version + 1;
            } in
            let w : CountInv e = record {
              settled = λ h. let (f, a) = match-All ds (lines c) good in (ds, refl, f, a);
              told = ground (arith, v.told, go);
              signed = ground (arith, v.signed, go);
            } in
            subst CountInv (ground (arith, go, some_line, good, f)) w
      ]
    ]
  ]
]

-- What settles a count is its differences and its lines.
IsSettled-same :
    (c e : StockCount)
    → e.differences ≡ c.differences
    → e.line_map ≡ c.line_map
    → IsSettled c
    → IsSettled e
IsSettled-same c e d l (ds, h, f, a) = (
  ds,
  d ∙ h,
  subst (λ m. All (IsFaithful (lines (record c { line_map = m }))) ds) (sym l) f,
  subst (λ m. All (IsAccounted ds) (lines (record c { line_map = m }))) (sym l) a,
)

module _ (c : StockCount) (v : CountInv c) where
  approve-Inv : (p : ApprovalProps) → CountInv (approve p c).1
  unfolding approve
  approve-Inv p = record {
    settled = λ h.
        IsSettled-same c (approve p c).1 (ground arith) (ground arith)
          (v.settled (ground (arith, h)));
    told =
        let one_more : (e : CountEvent) → length (push c.events e) ≡ length c.events + 1 =
          λ e. length-push c.events e in
        grind (arith, v.told, one_more);
    signed = ground (arith, v.signed);
  }

  reject-Inv : (a r : Text) (t : Date) → CountInv (reject a r t c).1
  unfolding reject
  reject-Inv a r t = record {
    settled = λ h.
        IsSettled-same c (reject a r t c).1 (ground arith) (ground arith)
          (v.settled (ground (arith, h)));
    told = ground (arith, v.told);
    signed = ground (arith, v.signed);
  }

after_count_calls-Inv :
    (xs : List CountCall) (c : StockCount) → CountInv c → CountInv (after_count_calls xs c)
unfolding after_count_calls after_count_call
after_count_calls-Inv [] c v = v
after_count_calls-Inv (line_call l ∷ xs) c v =
    after_count_calls-Inv xs (record_line l c).1 (record_line-Inv l c v)
after_count_calls-Inv (close_call ds t ∷ xs) c v =
    after_count_calls-Inv xs (close_count ds t c).1 (close_count-Inv ds t c v)
after_count_calls-Inv (approve_call p ∷ xs) c v =
    after_count_calls-Inv xs (approve p c).1 (approve-Inv c v p)
after_count_calls-Inv (reject_call a r t ∷ xs) c v =
    after_count_calls-Inv xs (reject a r t c).1 (reject-Inv c v a r t)

open_count-Inv : (props : CountProps) (c : StockCount) → open_count props ≡ ok c → CountInv c
unfolding open_count
open_count-Inv props c h =
    let (id, _, h1) = >>=-eq-ok (require_text props.id stock_count_id_required) _ h in
    let (by, _, h2) = >>=-eq-ok (require_text props.opened_by stock_count_actor_required) _ h1 in
    let (node, _, h3) =
      >>=-eq-ok (require_text props.origin_node_id stock_count_origin_node_required) _ h2 in
    subst CountInv (ok_injective h3)
      (record { settled = λ e. absurd (ground (arith, e)); told = refl; signed = refl })

-- In every count that calls lead to from an open one, whether they succeed or throw: once it is no longer
-- open it has differences; each is that of the first recorded line with its line identifier (of that
-- line's item and batch, in its scale, with its counted quantity, an expected one that is not
-- negative, what the first less the second is as numbers, and a version that is a positive safe
-- integer), and the identifier of every line is that of some difference; it has told of its approval
-- exactly if it is approved, and has an approver exactly then.
pub reachable-CountInv :
    (props : CountProps) (c : StockCount) (xs : List CountCall)
    → open_count props ≡ ok c
    → CountInv (after_count_calls xs c)
reachable-CountInv props c xs h = after_count_calls-Inv xs c (open_count-Inv props c h)

-- A count that is closed, with these differences and lines.
pub record IsClosedWith (ds : List Difference) (m : List (Text × CountLine)) (c : StockCount)
    : Type 0 where
  pub closed : is_open_count c.status ≡ false
  pub differences : c.differences ≡ some ds
  pub lines : c.line_map ≡ m

module _ (ds : List Difference) (m : List (Text × CountLine)) (c : StockCount)
    (w : IsClosedWith ds m c) where
  line-closed : (l : CountLine) → IsClosedWith ds m (record_line l c).1
  unfolding record_line
  line-closed l = ground (arith, w)

  close-closed : (es : List Difference) (t : Date) → IsClosedWith ds m (close_count es t c).1
  unfolding close_count
  close-closed es t = ground (arith, w)

  approve-closed : (p : ApprovalProps) → IsClosedWith ds m (approve p c).1
  unfolding approve
  approve-closed p = ground (arith, w)

  reject-closed : (a r : Text) (t : Date) → IsClosedWith ds m (reject a r t c).1
  unfolding reject
  reject-closed a r t = ground (arith, w)

after_count_calls-closed :
    (ds : List Difference) (m : List (Text × CountLine)) (xs : List CountCall) (c : StockCount)
    → IsClosedWith ds m c
    → IsClosedWith ds m (after_count_calls xs c)
unfolding after_count_calls after_count_call
after_count_calls-closed ds m [] c w = w
after_count_calls-closed ds m (line_call l ∷ xs) c w =
    after_count_calls-closed ds m xs (record_line l c).1 (line-closed ds m c w l)
after_count_calls-closed ds m (close_call es t ∷ xs) c w =
    after_count_calls-closed ds m xs (close_count es t c).1 (close-closed ds m c w es t)
after_count_calls-closed ds m (approve_call p ∷ xs) c w =
    after_count_calls-closed ds m xs (approve p c).1 (approve-closed ds m c w p)
after_count_calls-closed ds m (reject_call a r t ∷ xs) c w =
    after_count_calls-closed ds m xs (reject a r t c).1 (reject-closed ds m c w a r t)

close_count-closed :
    (ds : List Difference) (t : Date) (c e : StockCount)
    → close_count ds t c ≡ (ok tt, e)
    → IsClosedWith ds c.line_map e
unfolding close_count
close_count-closed ds t c e h = ground (arith, h)

approve-returns :
    (p : ApprovalProps) (out : List Difference) (c f : StockCount)
    → approve p c ≡ (ok out, f)
    → (out ≡ or_no_differences c.differences) × (f.line_map ≡ c.line_map) × (f.status ≡ approved)
unfolding approve
approve-returns p out c f h = ground (arith, h)

-- The differences that an approval hands over are those that the count was closed with, and its lines are
-- those that it was closed with, whatever was called on the count in between.
pub approved_as_closed :
    (ds out : List Difference) (t : Date) (p : ApprovalProps) (xs : List CountCall)
    (c e f : StockCount)
    → close_count ds t c ≡ (ok tt, e)
    → approve p (after_count_calls xs e) ≡ (ok out, f)
    → (out ≡ ds) × (f.line_map ≡ c.line_map) × (f.status ≡ approved)
approved_as_closed ds out t p xs c e f h k =
    let w = after_count_calls-closed ds c.line_map xs e (close_count-closed ds t c e h) in
    let (o, l, s) = approve-returns p out (after_count_calls xs e) f k in
    (o ∙ ap or_no_differences w.differences, l ∙ w.lines, s)

-- If a count can be closed with some differences, it can be closed with the first of them given twice: the call
-- succeeds, and stores it twice.
pub repeated_difference_accepted :
    (d : Difference) (ds : List Difference) (t : Date) (c e : StockCount)
    → close_count (d ∷ ds) t c ≡ (ok tt, e)
    → close_count (d ∷ d ∷ ds) t c ≡ (ok tt, record e { differences = some (d ∷ d ∷ ds) })
unfolding close_count
repeated_difference_accepted d ds t c e h = ground (arith, h, repeated-match d ds (lines c))
