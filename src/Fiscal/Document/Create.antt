-- ===== src/Fiscal/Document/Create.antt =====
-- fiscal-document.ts: `FiscalDocument.create` and `FiscalDocument.restore`.
use cullen.Prelude.{ℕ, Bool, false, Option, none, List, [], ◌∷◌}
use cullen.Prelude.Text.{Text, Date, codes}
use cullen.Shared.Errors.{
  fiscal_document_id_required, fiscal_idempotency_key_required, fiscal_fingerprint_required,
  fiscal_terminal_required, fiscal_node_required, fiscal_actor_required, fiscal_event_id_required,
}
use cullen.Shared.Result.{Result, ok, ◌>>=◌, require_text, traverse}
use cullen.Fiscal.Evidence.{Evidence}
use cullen.Fiscal.Content.{Content, validate_content}
use cullen.Fiscal.Document.State.{
  FiscalDocument, Transition, DocumentState, document_pending, pending, valid_date,
}

-- `CreateFiscalDocumentProps`
pub record CreateProps : Type 0 where
  pub id : Text
  pub content : Content
  pub idempotency_key : Text
  pub request_fingerprint : Text
  pub terminal_id : Text
  pub origin_node_id : Text
  pub created_by : Text
  pub created_at : Date
  pub event_id : Text

-- `RestoreFiscalDocumentProps`, less the fields of `CreateProps`
pub record RestoreProps : Type 0 where
  pub status : DocumentState
  pub version : ℕ
  pub attempts : ℕ
  pub fiscal_number : Option Text
  pub last_error_code : Option Text
  pub last_evidence : Option Evidence
  pub last_failure_retryable : Bool
  pub transitions : List Transition

-- The first transition and the first event, which carry the actor and the date as they were given.
abbrev first_transition : CreateProps → Text → Transition
first_transition props event_id = record {
  event_id = event_id;
  version = 1;
  from = none;
  to = pending;
  actor_id = props.created_by;
  occurred_at = props.created_at;
  error_code = none;
  evidence = none;
}

abbrev with_date : Transition → Result Transition
with_date t = do occurred_at ← valid_date t.occurred_at; ok (record t { occurred_at = occurred_at })

module _ (to_upper : Text → Text) where
  -- `FiscalDocument.create`
  unfoldable pub create : CreateProps → Result FiscalDocument
  create props = do
    id ← require_text props.id fiscal_document_id_required
    content ← validate_content to_upper props.content
    idempotency_key ← require_text props.idempotency_key fiscal_idempotency_key_required
    request_fingerprint ← require_text props.request_fingerprint fiscal_fingerprint_required
    terminal_id ← require_text props.terminal_id fiscal_terminal_required
    origin_node_id ← require_text props.origin_node_id fiscal_node_required
    created_by ← require_text props.created_by fiscal_actor_required
    created_at ← valid_date props.created_at
    event_id ← require_text props.event_id fiscal_event_id_required
    ok (record {
      id = id;
      content = content;
      idempotency_key = idempotency_key;
      request_fingerprint = request_fingerprint;
      terminal_id = terminal_id;
      origin_node_id = origin_node_id;
      created_by = created_by;
      created_at = created_at;
      status = pending;
      version = 1;
      attempts = 0;
      fiscal_number = none;
      last_error_code = none;
      last_evidence = none;
      last_failure_retryable = false;
      transitions = first_transition props event_id ∷ [];
      events =
          record {
            body = document_pending content.reference_id content.type;
            event_id = event_id;
            aggregate_id = id;
            aggregate_version = 1;
            occurred_at = props.created_at;
          }
          ∷ [];
    })

  -- `FiscalDocument.restore`, which creates the document under the event identity
  -- `restore-placeholder` and then assigns what was stored.
  unfoldable pub restore : CreateProps → RestoreProps → Result FiscalDocument
  unfolding create
  restore created stored = do
    document ← create (record created { event_id = codes "restore-placeholder" })
    transitions ← traverse with_date stored.transitions
    ok (record document {
      status = stored.status;
      version = stored.version;
      attempts = stored.attempts;
      fiscal_number = stored.fiscal_number;
      last_error_code = stored.last_error_code;
      last_evidence = stored.last_evidence;
      last_failure_retryable = stored.last_failure_retryable;
      transitions = transitions;
      events = [];
    })
