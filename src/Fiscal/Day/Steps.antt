-- ===== src/Fiscal/Day/Steps.antt =====
-- How a call changes a fiscal day, whether it succeeds or throws, and the rule for invariants.
use cullen.Prelude.{
  ℕ, ◌≡◌, refl, subst, ap, ◌∙◌, inl, inr, Bool, true, false, Option, none, some, List, map, push,
  arith, Option-cases,
}
use cullen.Prelude.Text.{Text}
use cullen.Shared.Result.{ok}
use cullen.Fiscal.Evidence.{
  Evidence, is_operation_committed, is_terminal_failure_safe, is_retry_safe,
}
use cullen.Fiscal.Day.State.{
  FiscalDay, FiscalReport, ReportState, DayActor, DayEventBody, pending, issued, error, retrying,
  failed, set_at, day_open, z_pending, day_closed, locate, found,
}
use cullen.Fiscal.Day.Methods.{passes, started, confirmed, noted, state_after}
use cullen.Fiscal.Day.Slots.{get_at, locate-get_at}
use cullen.Fiscal.Day.Shows.{core, Shows, finish, finish-Shows, written}

-- A report that a method may still change.
abbrev pub is_live : ReportState → Bool
is_live s = elim s [ issued ↦ false | failed ↦ false | _ ↦ true ]

-- What a method other than a successful `markReportIssued` makes of a report.
pub data Change (r : FiscalReport) : FiscalReport → Type 0 where
  starts : Change r (started r)
  is_unnumbered : Change r (record r { status = issued })
  errs : (code : Text) (x : Evidence) (again : Bool) → Change r (noted code x again r)
  is_uncoded : Change r (record r { status = error })
  fails :
      passes is_terminal_failure_safe r.last_evidence ≡ true
      → Change r (record r { status = failed; retryable = false })
  retries : passes is_retry_safe r.last_evidence ≡ true → Change r (record r { status = retrying })

-- How a call has changed a day.
pub data Moved (d e : FiscalDay) : Type 0 where
  stays : d ≡ e → Moved d e
  changes :
      (i : ℕ) (r r' : FiscalReport)
      → get_at i d.reports ≡ some r
      → is_live r.status ≡ true
      → Change r r'
      → Shows d.state (map core (set_at i r' d.reports)) e
      → Moved d e
  issues :
      (i : ℕ) (r : FiscalReport) (n : Text) (x : Evidence)
      → get_at i d.reports ≡ some r
      → is_live r.status ≡ true
      → is_operation_committed x ≡ true
      → Shows
          (state_after r.type day_closed d.state)
          (map core (set_at i (confirmed n x r) d.reports))
          e
      → Moved d e
  requests :
      (r : FiscalReport)
      → d.state ≡ day_open
      → r.status ≡ pending
      → r.report_number ≡ none
      → Shows (state_after r.type z_pending day_open) (map core (push d.reports r)) e
      → Moved d e

pub found-slot :
    (id : Text) (i : ℕ) (r : FiscalReport) (rs : List FiscalReport)
    → found (locate id rs) ≡ ok (i, r)
    → (get_at i rs ≡ some r) × (is_live r.status ≡ true)
found-slot id i r rs h = elim (Option-cases (locate id rs)) [
  | inl n ↦ absurd (ground (arith, n))
  | inr (slot, e) ↦
      let same : slot ≡ (i, r) = ground (arith, e) in
      (locate-get_at id i r rs (e ∙ ap some same), ground (arith, e))
]

module _ (d : FiscalDay) (i : ℕ) (r : FiscalReport) (at : get_at i d.reports ≡ some r)
    (live : is_live r.status ≡ true) where
  pub changed :
      (r' : FiscalReport) (from : Option ReportState) (to : ReportState) (p : DayActor)
      (code : Option Text) (x : Option Evidence) (b : FiscalReport → DayEventBody) (e : FiscalDay)
      → Change r r'
      → (finish i r' from to p code x b (record d { reports = set_at i r' d.reports })).1 ≡ e
      → Moved d e
  changed r' from to p code x b e c h = changes i r r' at live c (
      subst (Shows d.state (map core (set_at i r' d.reports))) h (
        finish-Shows d.state (map core (set_at i r' d.reports)) i r' from to p code x b
          (written i r' d.reports) (record d { reports = set_at i r' d.reports }) (refl, refl)))
