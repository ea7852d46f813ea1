-- ===== src/Fiscal/Document/State.antt =====
-- fiscal-document.ts: class `FiscalDocument`. A method is an action on the document, which comes back
-- after a throw too.
use cullen.Prelude.{
  ℕ, ◌+◌, Bool, true, false, not, ◌||◌, Option, none, some, List, push, if◌then◌else◌,
}
use cullen.Prelude.Text.{Text, Date, is_invalid}
use cullen.Shared.Errors.{
  fiscal_actor_required, fiscal_timestamp_invalid, fiscal_event_id_required,
  fiscal_document_issued_immutable, fiscal_document_failed, fiscal_document_invalid_state,
  fiscal_commit_evidence_required, fiscal_number_required, fiscal_failure_evidence_invalid,
  fiscal_error_code_required, fiscal_retry_reconciliation_required,
  fiscal_terminal_failure_evidence_required,
}
use cullen.Shared.Result.{Result, ok, err, require_text}
use cullen.Shared.Result.{Result, ok, err, require_text}
use cullen.Shared.Action.{Action, lift, gets, throw_when, modify, ◌>>=◌, ◌>>◌}
use cullen.Fiscal.Evidence.{
  Evidence, is_evidence_coherent, is_retry_safe, is_terminal_failure_safe, is_operation_committed,
  is_complete,
}
use cullen.Fiscal.Content.{Content, DocumentType}

-- `FiscalDocumentState`
pub data DocumentState : Type 0 where
  pending printing issued error retrying failed : DocumentState

-- `FiscalDocumentTransition`
pub record Transition : Type 0 where
  pub event_id : Text
  pub version : ℕ
  pub from : Option DocumentState
  pub to : DocumentState
  pub actor_id : Text
  pub occurred_at : Date
  pub error_code : Option Text
  pub evidence : Option Evidence

-- The type and the payload of a `FiscalDocumentDomainEvent`.
pub data EventBody : Type 0 where
  document_pending : Text → DocumentType → EventBody
  printing_started : ℕ → EventBody
  document_issued : Option Text → Text → Option Evidence → EventBody
  error_recorded : Text → Option Evidence → Bool → EventBody
  document_retrying document_failed : Option Text → EventBody

-- `FiscalDocumentDomainEvent`
pub record Event : Type 0 where
  pub body : EventBody
  pub event_id : Text
  pub aggregate_id : Text
  pub aggregate_version : ℕ
  pub occurred_at : Date

pub record FiscalDocument : Type 0 where
  pub id : Text
  pub content : Content
  pub idempotency_key : Text
  pub request_fingerprint : Text
  pub terminal_id : Text
  pub origin_node_id : Text
  pub created_by : Text
  pub created_at : Date
  pub status : DocumentState
  pub version : ℕ
  pub attempts : ℕ
  pub fiscal_number : Option Text
  pub last_error_code : Option Text
  pub last_evidence : Option Evidence
  pub last_failure_retryable : Bool
  pub transitions : List Transition
  pub events : List Event

-- Who did it, when, and the event's identity.
pub record Actor : Type 0 where
  pub actor_id : Text
  pub occurred_at : Date
  pub event_id : Text

-- `validDate`
unfoldable pub valid_date : Date → Result Date
valid_date d = if is_invalid d then err fiscal_timestamp_invalid else ok d

abbrev appended : Transition → Text → EventBody → FiscalDocument → FiscalDocument
appended t event_id body d = record d {
  transitions = push d.transitions (record t { event_id = event_id });
  events = push d.events (record {
    body = body;
    event_id = event_id;
    aggregate_id = d.id;
    aggregate_version = d.version;
    occurred_at = t.occurred_at;
  });
}

-- `addTransition`
abbrev add_transition : Transition → EventBody → Action FiscalDocument (Unit {0})
add_transition t body = do
  event_id ← lift (require_text t.event_id fiscal_event_id_required)
  modify (appended t event_id body)

-- `transition`: the status and the version are assigned before the actor, the date and the event's
-- identity are checked.
unfoldable pub transition : DocumentState → Actor → EventBody → Action FiscalDocument (Unit {0})
transition to props body = do
  from ← gets (λ d. d.status)
  modify (λ d. record d { status = to; version = d.version + 1 })
  version ← gets (λ d. d.version)
  actor_id ← lift (require_text props.actor_id fiscal_actor_required)
  occurred_at ← lift (valid_date props.occurred_at)
  error_code ← gets (λ d. d.last_error_code)
  evidence ← gets (λ d. d.last_evidence)
  add_transition
      (record {
        event_id = props.event_id;
        version = version;
        from = some from;
        to = to;
        actor_id = actor_id;
        occurred_at = occurred_at;
        error_code = error_code;
        evidence = evidence;
      })
      body

abbrev pub is_issued : DocumentState → Bool
is_issued s = elim s [ issued ↦ true | _ ↦ false ]

abbrev pub is_failed : DocumentState → Bool
is_failed s = elim s [ failed ↦ true | _ ↦ false ]

abbrev can_start : DocumentState → Bool
can_start s = elim s [ pending ↦ true | retrying ↦ true | _ ↦ false ]

abbrev can_issue : DocumentState → Bool
can_issue s = elim s [ printing ↦ true | error ↦ true | retrying ↦ true | _ ↦ false ]

abbrev is_printing : DocumentState → Bool
is_printing s = elim s [ printing ↦ true | _ ↦ false ]

abbrev is_error : DocumentState → Bool
is_error s = elim s [ error ↦ true | _ ↦ false ]

abbrev can_fail : DocumentState → Bool
can_fail s = elim s [ error ↦ true | retrying ↦ true | _ ↦ false ]

-- Whether evidence is there and passes a test.
abbrev pub has : (Evidence → Bool) → Option Evidence → Bool
has test none = false
has test (some e) = test e

-- `assertMutable`
abbrev assert_mutable : Action FiscalDocument (Unit {0})
assert_mutable = do
  throw_when (λ d. is_issued d.status) fiscal_document_issued_immutable
  throw_when (λ d. is_failed d.status) fiscal_document_failed

-- `startPrinting`
unfoldable pub start_printing : Actor → Action FiscalDocument (Unit {0})
start_printing props = do
  assert_mutable
  throw_when (λ d. not (can_start d.status)) fiscal_document_invalid_state
  modify λ d. record d {
    attempts = d.attempts + 1;
    last_error_code = none;
    last_evidence = none;
    last_failure_retryable = false;
  }
  attempt ← gets (λ d. d.attempts)
  transition printing props (printing_started attempt)

-- `markIssued`
unfoldable pub mark_issued : Text → Evidence → Actor → Action FiscalDocument (Unit {0})
mark_issued fiscal_number evidence props = do
  assert_mutable
  throw_when (λ d. not (can_issue d.status)) fiscal_document_invalid_state
  throw_when (λ d. not (is_operation_committed evidence)) fiscal_commit_evidence_required
  number ← lift (require_text fiscal_number fiscal_number_required)
  modify λ d. record d {
    fiscal_number = some number;
    last_error_code = none;
    last_evidence = some evidence;
    last_failure_retryable = false;
  }
  reference_id ← gets (λ d. d.content.reference_id)
  transition issued props (document_issued (some number) reference_id (some evidence))

-- `recordError`
unfoldable pub record_error : Text → Evidence → Bool → Actor → Action FiscalDocument (Unit {0})
record_error code evidence retryable props = do
  assert_mutable
  throw_when (λ d. not (is_printing d.status)) fiscal_document_invalid_state
  throw_when (λ d. not (is_evidence_coherent evidence) || is_complete evidence.print_delivery)
      fiscal_failure_evidence_invalid
  error_code ← lift (require_text code fiscal_error_code_required)
  modify λ d. record d {
    last_error_code = some error_code;
    last_evidence = some evidence;
    last_failure_retryable = retryable;
  }
  transition error props (error_recorded code (some evidence) retryable)

-- `beginRetry`
unfoldable pub begin_retry : Actor → Action FiscalDocument (Unit {0})
begin_retry props = do
  assert_mutable
  throw_when
      (λ d.
        not (is_error d.status)
        || not d.last_failure_retryable
        || not (has is_retry_safe d.last_evidence))
      fiscal_retry_reconciliation_required
  previous ← gets (λ d. d.last_error_code)
  transition retrying props (document_retrying previous)

-- `markFailed`
unfoldable pub mark_failed : Actor → Action FiscalDocument (Unit {0})
mark_failed props = do
  assert_mutable
  throw_when (λ d. not (can_fail d.status)) fiscal_document_invalid_state
  throw_when (λ d. not (has is_terminal_failure_safe d.last_evidence))
      fiscal_terminal_failure_evidence_required
  error_code ← gets (λ d. d.last_error_code)
  transition failed props (document_failed error_code)

-- The calls of the class's methods.
pub data Call : Type 0 where
  start_call : Actor → Call
  issue_call : Text → Evidence → Actor → Call
  error_call : Text → Evidence → Bool → Actor → Call
  retry_call fail_call : Actor → Call

unfoldable pub run_call : Call → Action FiscalDocument (Unit {0})
run_call (start_call p) = start_printing p
run_call (issue_call n e p) = mark_issued n e p
run_call (error_call c e r p) = record_error c e r p
run_call (retry_call p) = begin_retry p
run_call (fail_call p) = mark_failed p
