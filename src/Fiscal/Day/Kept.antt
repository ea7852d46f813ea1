-- ===== src/Fiscal/Day/Kept.antt =====
-- The rule for invariants of fiscal days.
use cullen.Prelude.{ℕ, ◌≡◌, sym, subst, true, some, none, List, [], ◌∷◌, map, push}
use cullen.Prelude.Text.{Text}
use cullen.Fiscal.Evidence.{Evidence, is_operation_committed}
use cullen.Fiscal.Day.State.{
  FiscalDay, DayState, FiscalReport, pending, day_open, z_pending, day_closed, set_at,
}
use cullen.Fiscal.Day.Methods.{
  confirmed, state_after, DayCall, after_call, after_day_calls, request_call, start_call,
  retry_call, fail_call, issue_call, error_call,
}
use cullen.Fiscal.Day.Slots.{get_at}
use cullen.Fiscal.Day.Shows.{core, Shows}
use cullen.Fiscal.Day.Steps.{is_live, Change, Moved, stays, changes, issues, requests}
use cullen.Fiscal.Day.Calls.{
  request_report-Moved, start_report-Moved, retry_report-Moved, mark_report_failed-Moved,
  mark_report_issued-Moved, record_report_error-Moved,
}

pub after_call-Moved : (c : DayCall) (d : FiscalDay) → Moved d (after_call c d)
unfolding after_call
after_call-Moved (request_call p) d = request_report-Moved d p
after_call-Moved (start_call id p) d = start_report-Moved id p d
after_call-Moved (retry_call id p) d = retry_report-Moved id p d
after_call-Moved (fail_call id p) d = mark_report_failed-Moved id p d
after_call-Moved (issue_call id n x p) d = mark_report_issued-Moved id p d n x
after_call-Moved (error_call id c x again p) d = record_report_error-Moved id p d c x again

-- What does not read the transitions of reports, and is kept by each change of a report and by each
-- new report, is kept by any calls, whether they succeed or throw.
module _ (P : DayState → List FiscalReport → Type 0)
    (enter : (st : DayState) (rs : List FiscalReport) → P st rs → P st (map core rs))
    (leave : (st : DayState) (rs : List FiscalReport) → P st (map core rs) → P st rs)
    (on_change : (st : DayState) (rs : List FiscalReport) (i : ℕ) (r r' : FiscalReport)
      → P st rs
      → get_at i rs ≡ some r
      → is_live r.status ≡ true
      → Change r r'
      → P st (set_at i r' rs))
    (on_issue : (st : DayState) (rs : List FiscalReport) (i : ℕ) (r : FiscalReport) (n : Text)
        (x : Evidence)
      → P st rs
      → get_at i rs ≡ some r
      → is_live r.status ≡ true
      → is_operation_committed x ≡ true
      → P (state_after r.type day_closed st) (set_at i (confirmed n x r) rs))
    (on_request : (rs : List FiscalReport) (r : FiscalReport)
      → P day_open rs
      → r.status ≡ pending
      → r.report_number ≡ none
      → P (state_after r.type z_pending day_open) (push rs r)) where
  shown :
      (st : DayState) (rs : List FiscalReport) (e : FiscalDay)
      → Shows st (map core rs) e
      → P st rs
      → P e.state e.reports
  shown st rs e (s, h) v =
      subst (λ z. P z e.reports) (sym s) (leave st e.reports (subst (P st) (sym h) (enter st rs v)))

  Moved-kept : (d e : FiscalDay) → Moved d e → P d.state d.reports → P e.state e.reports
  Moved-kept d e (stays same) v = subst (λ x. P x.state x.reports) same v
  Moved-kept d e (changes i r r' at live c h) v =
      shown d.state (set_at i r' d.reports) e h (on_change d.state d.reports i r r' v at live c)
  Moved-kept d e (issues i r n x at live safe h) v =
      shown (state_after r.type day_closed d.state) (set_at i (confirmed n x r) d.reports) e h
        (on_issue d.state d.reports i r n x v at live safe)
  Moved-kept d e (requests r was fresh blank h) v =
      shown (state_after r.type z_pending day_open) (push d.reports r) e h
        (on_request d.reports r (subst (λ z. P z d.reports) was v) fresh blank)

  pub after_day_calls-kept :
      (cs : List DayCall) (d : FiscalDay)
      → P d.state d.reports
      → P (after_day_calls cs d).state (after_day_calls cs d).reports
  unfolding after_day_calls
  after_day_calls-kept [] d v = v
  after_day_calls-kept (c ∷ cs) d v =
      after_day_calls-kept cs (after_call c d)
        (Moved-kept d (after_call c d) (after_call-Moved c d) v)
