-- ===== src/Fiscal/Day/Methods.antt =====
-- fiscal-day.ts: the methods of `FiscalDay`.
use cullen.Prelude.{
  ◌+◌, Bool, true, false, not, ◌||◌, Option, none, some, List, [], ◌∷◌, any, length, push,
}
use cullen.Prelude.Text.{Text, eqb}
use cullen.Shared.Errors.{
  fiscal_day_not_open, fiscal_report_duplicate, fiscal_report_invalid_state,
  fiscal_commit_evidence_required, fiscal_report_number_required, fiscal_failure_evidence_invalid,
  fiscal_error_code_required, fiscal_terminal_failure_evidence_required,
  fiscal_report_reconciliation_required,
}
use cullen.Shared.Result.{require_text}
use cullen.Shared.Action.{Action, pure, lift, gets, throw_when, modify, ◌>>=◌, ◌>>◌}
use cullen.Fiscal.Evidence.{
  Evidence, is_evidence_coherent, is_retry_safe, is_terminal_failure_safe, is_operation_committed,
  is_complete,
}
use cullen.Fiscal.Day.State.{
  FiscalDay, DayState, day_open, z_pending, day_closed, ReportType, report_x, report_z, ReportState,
  pending, printing, issued, error, retrying, failed, FiscalReport, DayActor, report, assign,
  transition_report, event, report_requested, report_printing_started, report_error_recorded,
  report_is_retrying, report_issued, report_failed,
}
use cullen.Fiscal.Day.Open.{RequestProps, new_report}

abbrev pub is_open : DayState → Bool
is_open s = elim s [ day_open ↦ true | _ ↦ false ]

abbrev pub is_z : ReportType → Bool
is_z report_x = false
is_z report_z = true

-- The day's state after a report of this type, if a Z report changes it so.
abbrev pub state_after : ReportType → DayState → DayState → DayState
state_after report_x to s = s
state_after report_z to s = to

abbrev pub is_open_for_start : ReportState → Bool
is_open_for_start s = elim s [ pending ↦ true | retrying ↦ true | _ ↦ false ]

abbrev pub is_open_for_issue : ReportState → Bool
is_open_for_issue s = elim s [ printing ↦ true | error ↦ true | retrying ↦ true | _ ↦ false ]

abbrev pub is_open_for_failure : ReportState → Bool
is_open_for_failure s = elim s [ error ↦ true | retrying ↦ true | _ ↦ false ]

abbrev pub is_printing : ReportState → Bool
is_printing s = elim s [ printing ↦ true | _ ↦ false ]

abbrev pub is_error : ReportState → Bool
is_error s = elim s [ error ↦ true | _ ↦ false ]

abbrev pub passes : (Evidence → Bool) → Option Evidence → Bool
passes test none = false
passes test (some e) = test e

-- `requestReport`: the new report is the last of the list.
unfoldable pub request_report : RequestProps → Action FiscalDay FiscalReport
unfolding new_report transition_report event
request_report props = do
  throw_when (λ d. not (is_open d.state)) fiscal_day_not_open
  throw_when
      (λ d.
        any (λ r. eqb r.id props.id) d.reports
        || any (λ r. eqb r.idempotency_key props.idempotency_key) d.reports)
      fiscal_report_duplicate
  r ← lift (new_report props)
  i ← gets (λ d. length d.reports)
  modify (λ d. record d {
    state = state_after props.type z_pending d.state;
    reports = push d.reports r;
  })
  r' ← transition_report i r none pending props.actor none none
  event (report_requested props.type r'.id) props.actor.event_id props.actor.occurred_at
  pure r'

abbrev pub started : FiscalReport → FiscalReport
started r = record r {
  status = printing;
  attempts = r.attempts + 1;
  last_error_code = none;
  last_evidence = none;
  retryable = false;
}

-- `startReport`
unfoldable pub start_report : Text → DayActor → Action FiscalDay (Unit {0})
unfolding report transition_report event
start_report report_id props = do
  (i, r) ← report report_id
  throw_when (λ d. not (is_open_for_start r.status)) fiscal_report_invalid_state
  assign i (started r)
  r' ← transition_report i (started r) (some r.status) printing props none none
  event (report_printing_started r'.id r'.type r'.attempts) props.event_id props.occurred_at

abbrev pub confirmed : Text → Evidence → FiscalReport → FiscalReport
confirmed number evidence r = record r {
  status = issued;
  report_number = some number;
  last_error_code = none;
  last_evidence = some evidence;
  retryable = false;
}

-- `markReportIssued`: the status is assigned before the number is checked.
unfoldable pub mark_report_issued : Text → Text → Evidence → DayActor → Action FiscalDay (Unit {0})
unfolding report transition_report event
mark_report_issued report_id report_number evidence props = do
  (i, r) ← report report_id
  throw_when (λ d. not (is_open_for_issue r.status)) fiscal_report_invalid_state
  throw_when (λ d. not (is_operation_committed evidence)) fiscal_commit_evidence_required
  assign i (record r { status = issued })
  number ← lift (require_text report_number fiscal_report_number_required)
  assign i (confirmed number evidence r)
  modify (λ d. record d { state = state_after r.type day_closed d.state })
  r' ←
      transition_report i (confirmed number evidence r) (some r.status) issued props none
        (some evidence)
  event (report_issued r'.type r'.id number evidence) props.event_id props.occurred_at

abbrev pub noted : Text → Evidence → Bool → FiscalReport → FiscalReport
noted code evidence retryable r = record r {
  status = error;
  last_error_code = some code;
  last_evidence = some evidence;
  retryable = retryable;
}

-- `recordReportError`: the status is assigned before the code is checked.
unfoldable pub record_report_error :
    Text → Text → Evidence → Bool → DayActor → Action FiscalDay (Unit {0})
unfolding report transition_report event
record_report_error report_id code evidence retryable props = do
  (i, r) ← report report_id
  throw_when (λ d. not (is_printing r.status)) fiscal_report_invalid_state
  throw_when (λ d. not (is_evidence_coherent evidence) || is_complete evidence.print_delivery)
      fiscal_failure_evidence_invalid
  assign i (record r { status = error })
  error_code ← lift (require_text code fiscal_error_code_required)
  assign i (noted error_code evidence retryable r)
  r' ←
      transition_report i (noted error_code evidence retryable r) (some r.status) error props
        (some error_code) (some evidence)
  event (report_error_recorded r'.id (some error_code) (some evidence)) props.event_id
      props.occurred_at

-- `markReportFailed`
unfoldable pub mark_report_failed : Text → DayActor → Action FiscalDay (Unit {0})
unfolding report transition_report event
mark_report_failed report_id props = do
  (i, r) ← report report_id
  throw_when (λ d. not (is_open_for_failure r.status)) fiscal_report_invalid_state
  throw_when (λ d. not (passes is_terminal_failure_safe r.last_evidence))
      fiscal_terminal_failure_evidence_required
  assign i (record r { status = failed; retryable = false })
  r' ←
      transition_report i (record r { status = failed; retryable = false }) (some r.status) failed
        props r.last_error_code r.last_evidence
  event (report_failed r'.id r'.last_error_code r'.last_evidence) props.event_id props.occurred_at

-- `retryReport`
unfoldable pub retry_report : Text → DayActor → Action FiscalDay (Unit {0})
unfolding report transition_report event
retry_report report_id props = do
  (i, r) ← report report_id
  throw_when
      (λ d.
        not (is_error r.status) || not r.retryable || not (passes is_retry_safe r.last_evidence))
      fiscal_report_reconciliation_required
  assign i (record r { status = retrying })
  r' ←
      transition_report i (record r { status = retrying }) (some error) retrying props
        r.last_error_code r.last_evidence
  event (report_is_retrying r'.id) props.event_id props.occurred_at

-- The calls of the class's methods that change it.
pub data DayCall : Type 0 where
  request_call : RequestProps → DayCall
  start_call retry_call fail_call : Text → DayActor → DayCall
  issue_call : Text → Text → Evidence → DayActor → DayCall
  error_call : Text → Text → Evidence → Bool → DayActor → DayCall

-- The day after a call, whether it succeeds or throws.
unfoldable pub after_call : DayCall → FiscalDay → FiscalDay
unfolding request_report start_report retry_report mark_report_failed mark_report_issued
    record_report_error
after_call (request_call p) d = (request_report p d).1
after_call (start_call id p) d = (start_report id p d).1
after_call (retry_call id p) d = (retry_report id p d).1
after_call (fail_call id p) d = (mark_report_failed id p d).1
after_call (issue_call id n e p) d = (mark_report_issued id n e p d).1
after_call (error_call id c e r p) d = (record_report_error id c e r p d).1

-- The day after a sequence of calls.
unfoldable pub after_day_calls : List DayCall → FiscalDay → FiscalDay
after_day_calls [] d = d
after_day_calls (c ∷ cs) d = after_day_calls cs (after_call c d)
