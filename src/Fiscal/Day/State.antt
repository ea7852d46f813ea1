-- ===== src/Fiscal/Day/State.antt =====
-- fiscal-day.ts: the fields of `FiscalDay` and of its reports, and how methods reach and change them.
use cullen.Prelude.{ℕ, zero, suc, ◌+◌, Bool, Option, none, some, List, [], ◌∷◌, push, if◌then◌else◌}
use cullen.Prelude.Text.{Text, eqb, trim, Date, is_invalid}
use cullen.Shared.Errors.{
  fiscal_actor_required, fiscal_timestamp_invalid, fiscal_event_id_required,
  fiscal_report_not_found, fiscal_report_issued_immutable, fiscal_report_failed,
}
use cullen.Shared.Result.{Result, ok, err, require_text}
use cullen.Shared.Action.{Action, pure, lift, gets, modify, ◌>>=◌, ◌>>◌}
use cullen.Fiscal.Evidence.{Evidence}

-- `FiscalDayState`
pub data DayState : Type 0 where
  day_open z_pending day_closed : DayState

-- `FiscalReportType`
pub data ReportType : Type 0 where
  report_x report_z : ReportType

-- `FiscalReportState`
pub data ReportState : Type 0 where
  pending printing issued error retrying failed : ReportState

-- `FiscalReportTransition`
pub record ReportTransition : Type 0 where
  pub event_id : Text
  pub version : ℕ
  pub from : Option ReportState
  pub to : ReportState
  pub actor_id : Text
  pub occurred_at : Date
  pub error_code : Option Text
  pub evidence : Option Evidence

-- `FiscalReport`
pub record FiscalReport : Type 0 where
  pub id : Text
  pub type : ReportType
  pub idempotency_key : Text
  pub request_fingerprint : Text
  pub status : ReportState
  pub attempts : ℕ
  pub report_number : Option Text
  pub last_error_code : Option Text
  pub last_evidence : Option Evidence
  pub retryable : Bool
  pub requested_by : Text
  pub requested_at : Date
  pub transitions : List ReportTransition

-- The type and the payload of a `FiscalDayDomainEvent`.
pub data DayEventBody : Type 0 where
  day_opened : Text → DayEventBody
  report_requested : ReportType → Text → DayEventBody
  report_printing_started : Text → ReportType → ℕ → DayEventBody
  report_error_recorded : Text → Option Text → Option Evidence → DayEventBody
  report_is_retrying : Text → DayEventBody
  report_issued : ReportType → Text → Text → Evidence → DayEventBody
  report_failed : Text → Option Text → Option Evidence → DayEventBody

-- `FiscalDayDomainEvent`
pub record DayEvent : Type 0 where
  pub body : DayEventBody
  pub event_id : Text
  pub aggregate_id : Text
  pub aggregate_version : ℕ
  pub occurred_at : Date

pub record FiscalDay : Type 0 where
  pub id : Text
  pub business_date : Text
  pub terminal_id : Text
  pub origin_node_id : Text
  pub opened_by : Text
  pub opened_at : Date
  pub state : DayState
  pub version : ℕ
  pub reports : List FiscalReport
  pub events : List DayEvent

-- Who did it, when, and the event's identity.
pub record DayActor : Type 0 where
  pub actor_id : Text
  pub occurred_at : Date
  pub event_id : Text

-- The object at a position of the list.
abbrev pub set_at {ℓ} : {A : Type ℓ} → ℕ → A → List A → List A
set_at n y [] = []
set_at zero y (x ∷ xs) = y ∷ xs
set_at (suc n) y (x ∷ xs) = x ∷ set_at n y xs

abbrev shifted {ℓ} : {A : Type ℓ} → Option (ℕ × A) → Option (ℕ × A)
shifted none = none
shifted (some (i, x)) = some (suc i, x)

-- `find`, with the position: a report that a method holds is the one in the list.
unfoldable pub locate : Text → List FiscalReport → Option (ℕ × FiscalReport)
locate id [] = none
locate id (r ∷ rs) = let rest = locate id rs in if eqb r.id id then some (0, r) else shifted rest

-- `FiscalDay.date`
unfoldable pub date : Date → Result Date
date d = if is_invalid d then err fiscal_timestamp_invalid else ok d

abbrev usable : ℕ × FiscalReport → Result (ℕ × FiscalReport)
usable slot = elim slot.1.status [
  | issued ↦ err fiscal_report_issued_immutable
  | failed ↦ err fiscal_report_failed
  | _ ↦ ok slot
]

abbrev pub found : Option (ℕ × FiscalReport) → Result (ℕ × FiscalReport)
found none = err fiscal_report_not_found
found (some slot) = usable slot

-- `report`
unfoldable pub report : Text → Action FiscalDay (ℕ × FiscalReport)
report id d = (found (locate (trim id) d.reports), d)

-- Assignments to the fields of a report.
abbrev pub assign : ℕ → FiscalReport → Action FiscalDay (Unit {0})
assign i r = modify (λ d. record d { reports = set_at i r d.reports })

-- The transition that `transitionReport` adds: the version is raised before the arguments are checked.
unfoldable pub new_transition :
    Option ReportState
    → ReportState
    → DayActor
    → Option Text
    → Option Evidence
    → Action FiscalDay ReportTransition
unfolding date
new_transition from to props error_code evidence = do
  modify (λ d. record d { version = d.version + 1 })
  version ← gets (λ d. d.version)
  event_id ← lift (require_text props.event_id fiscal_event_id_required)
  actor_id ← lift (require_text props.actor_id fiscal_actor_required)
  occurred_at ← lift (date props.occurred_at)
  pure (record {
    event_id = event_id;
    version = version;
    from = from;
    to = to;
    actor_id = actor_id;
    occurred_at = occurred_at;
    error_code = error_code;
    evidence = evidence;
  })

abbrev moved : FiscalReport → ReportTransition → FiscalReport
moved r t = record r { transitions = push r.transitions t }

abbrev pub store : ℕ → FiscalReport → ReportTransition → Action FiscalDay FiscalReport
store i r t = assign i (moved r t) >> pure (moved r t)

-- `transitionReport`
unfoldable pub transition_report :
    ℕ
    → FiscalReport
    → Option ReportState
    → ReportState
    → DayActor
    → Option Text
    → Option Evidence
    → Action FiscalDay FiscalReport
unfolding new_transition
transition_report i r from to props error_code evidence =
    new_transition from to props error_code evidence >>= store i r

-- `event`
unfoldable pub event : DayEventBody → Text → Date → Action FiscalDay (Unit {0})
unfolding date
event body event_id occurred_at = do
  event_id ← lift (require_text event_id fiscal_event_id_required)
  occurred_at ← lift (date occurred_at)
  modify λ d. record d {
    events = push d.events (record {
      body = body;
      event_id = event_id;
      aggregate_id = d.id;
      aggregate_version = d.version;
      occurred_at = occurred_at;
    });
  }
