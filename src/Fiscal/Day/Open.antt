-- ===== src/Fiscal/Day/Open.antt =====
-- fiscal-day.ts: `FiscalDay.open`, `FiscalDay.restore` and the report that `requestReport` makes.
use cullen.Prelude.{ℕ, ◌&&◌, leb, ◌==◌, Bool, true, false, not, List, [], ◌∷◌, none}
use cullen.Prelude.Text.{Text, codes, Date}
use cullen.Shared.Errors.{
  fiscal_business_date_invalid, fiscal_day_id_required, fiscal_terminal_required,
  fiscal_node_required, fiscal_actor_required, fiscal_report_id_required,
  fiscal_idempotency_key_required, fiscal_fingerprint_required,
}
use cullen.Shared.Result.{Result, ok, err, ◌>>=◌, ◌>>◌, throw_if, require_text}
use cullen.Fiscal.Day.State.{
  FiscalDay, DayState, day_open, FiscalReport, date, event, day_opened, ReportType, DayActor,
  pending,
}

abbrev is_digit : ℕ → Bool
is_digit c = leb b'0' c && leb c b'9'

abbrev fits : List (ℕ → Bool) → Text → Bool
fits [] [] = true
fits [] (c ∷ s) = false
fits (p ∷ ps) [] = false
fits (p ∷ ps) (c ∷ s) = p c && fits ps s

-- /^\d{4}-\d{2}-\d{2}$/
unfoldable pub is_business_date : Text → Bool
is_business_date s =
    let dash : ℕ → Bool = λ c. c == b'-' in
    fits
      (is_digit ∷ is_digit ∷ is_digit ∷ is_digit ∷ dash ∷ is_digit ∷ is_digit ∷ dash ∷ is_digit
        ∷ is_digit ∷ [])
      s

-- `OpenFiscalDayProps`
pub record OpenProps : Type 0 where
  pub id : Text
  pub business_date : Text
  pub terminal_id : Text
  pub origin_node_id : Text
  pub opened_by : Text
  pub opened_at : Date
  pub event_id : Text

-- What the action on an object that is being made comes to.
abbrev made : Result (Unit {0}) × FiscalDay → Result FiscalDay
made (ok u, d) = ok d
made (err e, d) = err e

-- `FiscalDay.open`
unfoldable pub open_day : OpenProps → Result FiscalDay
unfolding is_business_date date event require_text
open_day props = do
  throw_if (not (is_business_date props.business_date)) fiscal_business_date_invalid
  id ← require_text props.id fiscal_day_id_required
  terminal_id ← require_text props.terminal_id fiscal_terminal_required
  origin_node_id ← require_text props.origin_node_id fiscal_node_required
  opened_by ← require_text props.opened_by fiscal_actor_required
  opened_at ← date props.opened_at
  made (
      event (day_opened props.business_date) props.event_id props.opened_at (record {
        id = id;
        business_date = props.business_date;
        terminal_id = terminal_id;
        origin_node_id = origin_node_id;
        opened_by = opened_by;
        opened_at = opened_at;
        state = day_open;
        version = 1;
        reports = [];
        events = [];
      }))

-- `RestoreFiscalDayProps`
pub record RestoreProps : Type 0 where
  pub opened : OpenProps
  pub state : DayState
  pub version : ℕ
  pub reports : List FiscalReport

-- `FiscalDay.restore`
unfoldable pub restore_day : RestoreProps → Result FiscalDay
unfolding open_day
restore_day props = do
  day ← open_day (record props.opened { event_id = codes "restore-placeholder" })
  ok (record day {
    state = props.state;
    version = props.version;
    reports = props.reports;
    events = [];
  })

-- What `requestReport` takes.
pub record RequestProps : Type 0 where
  pub id : Text
  pub type : ReportType
  pub idempotency_key : Text
  pub request_fingerprint : Text
  pub actor : DayActor

-- The report that `requestReport` makes.
unfoldable pub new_report : RequestProps → Result FiscalReport
unfolding date require_text
new_report props = do
  id ← require_text props.id fiscal_report_id_required
  key ← require_text props.idempotency_key fiscal_idempotency_key_required
  fingerprint ← require_text props.request_fingerprint fiscal_fingerprint_required
  actor_id ← require_text props.actor.actor_id fiscal_actor_required
  requested_at ← date props.actor.occurred_at
  ok (record {
    id = id;
    type = props.type;
    idempotency_key = key;
    request_fingerprint = fingerprint;
    status = pending;
    attempts = 0;
    report_number = none;
    last_error_code = none;
    last_evidence = none;
    retryable = false;
    requested_by = actor_id;
    requested_at = requested_at;
    transitions = [];
  })
