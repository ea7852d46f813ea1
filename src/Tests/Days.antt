-- ===== src/Tests/Days.antt =====
-- The theorems on fiscal days, applied.
use cullen.Prelude.{◌≡◌, refl, false, none, some, [], ◌∷◌, List, map}
use cullen.Prelude.Text.{Text, codes, eqb, trim, trim_start, is_space}
use cullen.Shared.Errors.{fiscal_report_number_required}
use cullen.Shared.Result.{err, require_text}
use cullen.Fiscal.Evidence.{
  Evidence, result_received, applied, committed, complete, is_evidence_coherent,
  is_operation_committed,
}
use cullen.Fiscal.Day.{
  issued, OpenProps, open_day, is_business_date, FiscalDay, FiscalReport, DayActor, RequestProps,
  new_report, report_z, printing, pending, day_open, z_pending, DayCall, request_call, start_call,
  issue_call, after_day_calls, after_call, mark_report_issued, date, event, day_opened,
  transition_report, new_transition, request_report, start_report, report, locate,
}
use cullen.Fiscal.Day.Slots.{get_at}
use cullen.Fiscal.Day.Shows.{core}
use cullen.Fiscal.Day.Invariant.{DayInv, reachable-DayInv}
use cullen.Fiscal.Day.Endings.{blank_number_never_closes, final_reports_frozen}
use cullen.Tests.Values.{monday, tuesday}

abbrev props : OpenProps
props = record {
  id = codes "y1";
  business_date = codes "2026-02-01";
  terminal_id = codes "t1";
  origin_node_id = codes "n1";
  opened_by = codes "ana";
  opened_at = monday;
  event_id = codes "e1";
}

abbrev opened : FiscalDay
opened = record {
  id = codes "y1";
  business_date = codes "2026-02-01";
  terminal_id = codes "t1";
  origin_node_id = codes "n1";
  opened_by = codes "ana";
  opened_at = monday;
  state = day_open;
  version = 1;
  reports = [];
  events =
      record {
        body = day_opened (codes "2026-02-01");
        event_id = codes "e1";
        aggregate_id = codes "y1";
        aggregate_version = 1;
        occurred_at = monday;
      }
      ∷ [];
}

abbrev by_ana : Text → DayActor
by_ana e = record { actor_id = codes "ana"; occurred_at = tuesday; event_id = e }

abbrev z_request : RequestProps
z_request = record {
  id = codes "z1";
  type = report_z;
  idempotency_key = codes "k1";
  request_fingerprint = codes "f1";
  actor = by_ana (codes "e2");
}

abbrev evidence : Evidence
evidence = record {
  dispatch_state = result_received;
  command_effect = applied;
  fiscal_commit = committed;
  print_delivery = complete;
}

abbrev printed : List DayCall
printed = request_call z_request ∷ start_call (codes "z1") (by_ana (codes "e3")) ∷ []

abbrev z_issue : DayCall
z_issue = issue_call (codes "z1") (codes "0001") evidence (by_ana (codes "e4"))

abbrev z_report : FiscalReport
z_report = record {
  id = codes "z1";
  type = report_z;
  idempotency_key = codes "k1";
  request_fingerprint = codes "f1";
  status = printing;
  attempts = 1;
  report_number = none;
  last_error_code = none;
  last_evidence = none;
  retryable = false;
  requested_by = codes "ana";
  requested_at = tuesday;
  transitions =
      record {
        event_id = codes "e2";
        version = 2;
        from = none;
        to = pending;
        actor_id = codes "ana";
        occurred_at = tuesday;
        error_code = none;
        evidence = none;
      }
      ∷ record {
        event_id = codes "e3";
        version = 3;
        from = some pending;
        to = printing;
        actor_id = codes "ana";
        occurred_at = tuesday;
        error_code = none;
        evidence = none;
      }
      ∷ [];
}

reachable-DayInv_example :
    DayInv
      (after_day_calls (request_call z_request ∷ z_issue ∷ []) opened).state
      (after_day_calls (request_call z_request ∷ z_issue ∷ []) opened).reports
unfolding open_day is_business_date event date require_text trim trim_start is_space
reachable-DayInv_example =
    reachable-DayInv props opened (request_call z_request ∷ z_issue ∷ []) refl

blank_number_never_closes_example :
    let (outcome, e) =
      mark_report_issued
        (codes "z1")
        (codes " ")
        evidence
        (by_ana (codes "e4"))
        (after_day_calls printed opened) in
    (outcome ≡ err fiscal_report_number_required)
    × ((after_day_calls (z_issue ∷ []) e).state ≡ z_pending)
    × (get_at 0 (map core (after_day_calls (z_issue ∷ []) e).reports)
        ≡ some (core (record z_report { status = issued })))
unfolding open_day is_business_date event date require_text trim trim_start is_space after_day_calls
    after_call request_report new_report start_report report locate transition_report new_transition
    eqb is_operation_committed is_evidence_coherent
blank_number_never_closes_example =
    blank_number_never_closes (codes "z1") (codes " ") evidence (by_ana (codes "e4"))
      (after_day_calls printed opened) props opened printed (z_issue ∷ []) 0 z_report refl refl refl
      refl refl refl refl

-- A day that has an issued report.
abbrev issued_day : FiscalDay
issued_day = record opened {
  reports = record z_report { status = issued; report_number = some (codes "0001") } ∷ [];
}

final_reports_frozen_example :
    get_at 0 (map core (after_day_calls (z_issue ∷ []) issued_day).reports)
    ≡ some (core (record z_report { status = issued; report_number = some (codes "0001") }))
final_reports_frozen_example =
    final_reports_frozen issued_day (z_issue ∷ []) 0
      (record z_report { status = issued; report_number = some (codes "0001") }) refl refl
