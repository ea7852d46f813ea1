-- ===== src/Fiscal/Day/Invariant.antt =====
-- What holds of every fiscal day.
use cullen.Prelude.{
  ℕ, zero, suc, ◌+◌, ◌≤◌, ◌≡◌, refl, sym, subst, ap, ◌∙◌, Bool, true, false, some, none, List, [],
  ◌∷◌, map, All, All-append, push, arith, if◌then◌else◌, Bool-cases, inl, inr,
}
use cullen.Prelude.Text.{Text}
use cullen.Shared.Result.{ok}
use cullen.Fiscal.Evidence.{
  Evidence, is_operation_committed, is_terminal_failure_safe, is_retry_safe,
}
use cullen.Fiscal.Day.State.{
  FiscalDay, DayState, day_open, z_pending, day_closed, ReportState, pending, printing, issued,
  error, retrying, failed, FiscalReport, set_at, event,
}
use cullen.Fiscal.Day.Open.{OpenProps, open_day}
use cullen.Fiscal.Day.Methods.{is_z, passes, confirmed, state_after, DayCall, after_day_calls}
use cullen.Fiscal.Day.Slots.{
  get_at, count, count-set_at, count-push, count-get_at, some_injective, All-get_at, All-set_at,
}
use cullen.Fiscal.Day.Shows.{core}
use cullen.Fiscal.Day.Steps.{
  is_live, Change, starts, is_unnumbered, errs, is_uncoded, fails, retries,
}
use cullen.Fiscal.Day.Kept.{after_day_calls-kept}

-- What the status of a report says of the rest of it.
abbrev pub StatusSays : ReportState → FiscalReport → Type 0
StatusSays pending r = r.report_number ≡ none
StatusSays printing r = r.report_number ≡ none
StatusSays issued r =
    (n : Text) → r.report_number ≡ some n → passes is_operation_committed r.last_evidence ≡ true
StatusSays error r = r.report_number ≡ none
StatusSays retrying r = (r.report_number ≡ none) × (passes is_retry_safe r.last_evidence ≡ true)
StatusSays failed r =
    (r.report_number ≡ none) × (passes is_terminal_failure_safe r.last_evidence ≡ true)

abbrev pub IsCoherent : FiscalReport → Type 0
IsCoherent r = StatusSays r.status r

abbrev pub is_z_report : FiscalReport → Bool
is_z_report r = is_z r.type

abbrev pub HasNumber : FiscalReport → Type 0
HasNumber r = (r.status ≡ issued) × ((n : Text) × (r.report_number ≡ some n))

-- A Z report is issued and has its number.
abbrev pub IsNumbered : FiscalReport → Type 0
IsNumbered r = is_z_report r ≡ true → HasNumber r

-- How many Z reports a day in this state has.
abbrev pub z_reports : DayState → ℕ
z_reports day_open = 0
z_reports z_pending = 1
z_reports day_closed = 1

pub record DayInv (st : DayState) (rs : List FiscalReport) : Type 0 where
  pub single : count is_z_report rs ≡ z_reports st
  pub coherent : All IsCoherent rs
  pub closed : st ≡ day_closed → All IsNumbered rs

module _ (P : FiscalReport → Type 0) (same : (r : FiscalReport) → P r ≡ P (core r)) where
  pub enter-All : (rs : List FiscalReport) → All P rs → All P (map core rs)
  enter-All [] all = tt
  enter-All (r ∷ rs) all = (subst (λ X. X) (same r) all.0, enter-All rs all.1)

  pub leave-All : (rs : List FiscalReport) → All P (map core rs) → All P rs
  leave-All [] all = tt
  leave-All (r ∷ rs) all = (subst (λ X. X) (sym (same r)) all.0, leave-All rs all.1)

StatusSays-core : (s : ReportState) (r : FiscalReport) → StatusSays s r ≡ StatusSays s (core r)
StatusSays-core pending r = refl
StatusSays-core printing r = refl
StatusSays-core issued r = refl
StatusSays-core error r = refl
StatusSays-core retrying r = refl
StatusSays-core failed r = refl

count-core : (rs : List FiscalReport) → count is_z_report (map core rs) ≡ count is_z_report rs
count-core [] = refl
count-core (r ∷ rs) = ap (λ n. (if is_z_report r then 1 else 0) + n) (count-core rs)

enter-DayInv : (st : DayState) (rs : List FiscalReport) → DayInv st rs → DayInv st (map core rs)
enter-DayInv st rs v = record {
  single = count-core rs ∙ v.single;
  coherent = enter-All IsCoherent (λ r. StatusSays-core r.status r) rs v.coherent;
  closed = λ c. enter-All IsNumbered (λ r. refl) rs (v.closed c);
}

leave-DayInv : (st : DayState) (rs : List FiscalReport) → DayInv st (map core rs) → DayInv st rs
leave-DayInv st rs v = record {
  single = sym (count-core rs) ∙ v.single;
  coherent = leave-All IsCoherent (λ r. StatusSays-core r.status r) rs v.coherent;
  closed = λ c. leave-All IsNumbered (λ r. refl) rs (v.closed c);
}

-- A report that may still change has no number.
live_unnumbered :
    (r : FiscalReport) → IsCoherent r → is_live r.status ≡ true → r.report_number ≡ none
live_unnumbered r c l = ground (arith, c, l)

Change-IsCoherent :
    (r r' : FiscalReport) → IsCoherent r → is_live r.status ≡ true → Change r r' → IsCoherent r'
Change-IsCoherent r r' c l starts = live_unnumbered r c l
Change-IsCoherent r r' c l is_unnumbered = λ n h. ground (arith, h, live_unnumbered r c l)
Change-IsCoherent r r' c l (errs code x again) = live_unnumbered r c l
Change-IsCoherent r r' c l is_uncoded = live_unnumbered r c l
Change-IsCoherent r r' c l (fails safe) = (live_unnumbered r c l, safe)
Change-IsCoherent r r' c l (retries safe) = (live_unnumbered r c l, safe)

pub Change-type : (r r' : FiscalReport) → Change r r' → is_z_report r' ≡ is_z_report r
Change-type r r' starts = refl
Change-type r r' is_unnumbered = refl
Change-type r r' (errs code x again) = refl
Change-type r r' is_uncoded = refl
Change-type r r' (fails safe) = refl
Change-type r r' (retries safe) = refl

-- In a closed day what may still change is not a Z report.
pub live_other : (r : FiscalReport) → IsNumbered r → is_live r.status ≡ true → is_z_report r ≡ false
live_other r n l = ground (arith, n, l)

update-DayInv :
    (st : DayState) (rs : List FiscalReport) (i : ℕ) (r r' : FiscalReport)
    → DayInv st rs
    → get_at i rs ≡ some r
    → is_live r.status ≡ true
    → Change r r'
    → DayInv st (set_at i r' rs)
update-DayInv st rs i r r' v at live c = record {
  single = count-set_at is_z_report i r r' rs at (Change-type r r' c) ∙ v.single;
  coherent =
      All-set_at IsCoherent i r' rs v.coherent
        (Change-IsCoherent r r' (All-get_at IsCoherent i r rs v.coherent at) live c);
  closed = λ e. All-set_at IsNumbered i r' rs (v.closed e) (λ z. absurd (
      ground (
        arith,
        z,
        Change-type r r' c,
        live_other r (All-get_at IsNumbered i r rs (v.closed e) at) live,
      )));
}

-- What holds of a written report that is the only Z report, holds of all Z reports.
module _ (Q : FiscalReport → Type 0) where
  none_z :
      (rs : List FiscalReport) → count is_z_report rs ≡ 0 → All (λ r. is_z_report r ≡ true → Q r) rs
  none_z [] h = tt
  none_z (r ∷ rs) h = (λ z. absurd (ground (arith, h, z)), none_z rs (ground (arith, h)))

  pub only_z :
      (i : ℕ) (r r' : FiscalReport) (rs : List FiscalReport)
      → count is_z_report rs ≡ 1
      → get_at i rs ≡ some r
      → is_z_report r ≡ true
      → Q r'
      → All (λ r. is_z_report r ≡ true → Q r) (set_at i r' rs)
  only_z i r r' [] one at z n = tt
  only_z zero r r' (q ∷ qs) one at z n =
      let t : is_z_report q ≡ true = ap is_z_report (some_injective at) ∙ z in
      (λ y. n, none_z qs (ground (arith, one, t)))
  only_z (suc i) r r' (q ∷ qs) one at z n =
      let more : 1 ≤ count is_z_report qs = count-get_at is_z_report i r qs at z in
      let first : is_z_report q ≡ false = ground (arith, one, more) in
      (λ t. absurd (ground (arith, first, t)), only_z i r r' qs (ground (arith, one, first)) at z n)

issued_single :
    (st : DayState) (rs : List FiscalReport) (i : ℕ) (r : FiscalReport)
    → DayInv st rs
    → get_at i rs ≡ some r
    → count is_z_report rs ≡ z_reports (state_after r.type day_closed st)
issued_single st rs i r v at = ground (arith, v.single, count-get_at is_z_report i r rs at)

issue-DayInv :
    (st : DayState) (rs : List FiscalReport) (i : ℕ) (r : FiscalReport) (n : Text) (x : Evidence)
    → DayInv st rs
    → get_at i rs ≡ some r
    → is_live r.status ≡ true
    → is_operation_committed x ≡ true
    → DayInv (state_after r.type day_closed st) (set_at i (confirmed n x r) rs)
issue-DayInv st rs i r n x v at live safe = record {
  single = count-set_at is_z_report i r (confirmed n x r) rs at refl ∙ issued_single st rs i r v at;
  coherent = All-set_at IsCoherent i (confirmed n x r) rs v.coherent (λ m h. safe);
  closed = λ e. elim (Bool-cases (is_z_report r)) [
    | inl z ↦
        only_z HasNumber i r (confirmed n x r) rs
          (ground (arith, v.single, count-get_at is_z_report i r rs at z)) at z (refl, (n, refl))
    | inr o ↦
        All-set_at IsNumbered i (confirmed n x r) rs (v.closed (ground (arith, e, o)))
          (λ t. absurd (ground (arith, t, o)))
  ];
}

request-DayInv :
    (rs : List FiscalReport) (r : FiscalReport)
    → DayInv day_open rs
    → r.status ≡ pending
    → r.report_number ≡ none
    → DayInv (state_after r.type z_pending day_open) (push rs r)
request-DayInv rs r v fresh blank = record {
  single = ground (arith, count-push is_z_report r rs, v.single);
  coherent =
      All-append IsCoherent rs (r ∷ []) v.coherent
        (subst (λ s. StatusSays s r) (sym fresh) blank, tt);
  closed = λ e. absurd (ground (arith, e));
}

pub opened-empty :
    (props : OpenProps) (d : FiscalDay)
    → open_day props ≡ ok d
    → (d.state ≡ day_open) × (d.reports ≡ [])
unfolding open_day event
opened-empty props d h = ground arith

opened-DayInv :
    (props : OpenProps) (d : FiscalDay) → open_day props ≡ ok d → DayInv d.state d.reports
opened-DayInv props d h =
    let (s, r) = opened-empty props d h in
    subst (λ st. DayInv st d.reports) (sym s)
      (subst (DayInv day_open) (sym r)
        (record { single = refl; coherent = tt; closed = λ e. absurd (ground (arith, e)) }))

-- In every fiscal day that calls lead to from an open one, whether they succeed or throw: there is
-- no Z report while the day is open, and exactly one afterwards; when the day is closed that report is issued and has
-- its number; whatever report has a number is issued, and if it is, the printer's evidence says that it was committed;
-- a report that is retrying or has failed has evidence that nothing was.
pub reachable-DayInv :
    (props : OpenProps) (d : FiscalDay) (cs : List DayCall)
    → open_day props ≡ ok d
    → DayInv (after_day_calls cs d).state (after_day_calls cs d).reports
reachable-DayInv props d cs h =
    after_day_calls-kept DayInv enter-DayInv leave-DayInv update-DayInv issue-DayInv request-DayInv
      cs d (opened-DayInv props d h)
