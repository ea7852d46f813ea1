-- ===== src/Fiscal/Document/Frozen.antt =====
-- Which calls a document refuses, and that a refusal by the guards changes nothing.
use cullen.Prelude.{◌≡◌, sym, ap, ◌∙◌, ◌⊎◌, inl, inr, Bool, true, some, arith}
use cullen.Prelude.Text.{Text}
use cullen.Shared.Errors.{
  DomainError, fiscal_document_issued_immutable, fiscal_document_failed,
  fiscal_document_invalid_state, fiscal_retry_reconciliation_required,
  fiscal_terminal_failure_evidence_required,
}
use cullen.Shared.Result.{err}
use cullen.Fiscal.Evidence.{Evidence, is_operation_committed}
use cullen.Fiscal.Evidence.Safety.{retry_safe_is_uncommitted, retry_safe_iff_terminal_failure_safe}
use cullen.Fiscal.Document.{
  FiscalDocument, DocumentState, Call, start_call, issue_call, error_call, retry_call, fail_call,
  run_call, issued, failed, error, start_printing, mark_issued, record_error, begin_retry,
  mark_failed, Actor,
}

-- An issued document is immutable: every method throws, whatever its arguments, and leaves the
-- document as it was.
pub issued_immutable :
    (c : Call) (d : FiscalDocument)
    → d.status ≡ issued
    → run_call c d ≡ (err fiscal_document_issued_immutable, d)
unfolding run_call start_printing mark_issued record_error begin_retry mark_failed
issued_immutable (start_call p) d h = ground arith
issued_immutable (issue_call n e p) d h = ground arith
issued_immutable (error_call k e r p) d h = ground arith
issued_immutable (retry_call p) d h = ground arith
issued_immutable (fail_call p) d h = ground arith

-- A document that has failed for good refuses every method too, and stays as it was.
pub failed_immutable :
    (c : Call) (d : FiscalDocument)
    → d.status ≡ failed
    → run_call c d ≡ (err fiscal_document_failed, d)
unfolding run_call start_printing mark_issued record_error begin_retry mark_failed
failed_immutable (start_call p) d h = ground arith
failed_immutable (issue_call n e p) d h = ground arith
failed_immutable (error_call k e r p) d h = ground arith
failed_immutable (retry_call p) d h = ground arith
failed_immutable (fail_call p) d h = ground arith

-- The code that a document which can no longer change answers with.
abbrev pub refusal : DocumentState → DomainError
refusal s = elim s [ issued ↦ fiscal_document_issued_immutable | _ ↦ fiscal_document_failed ]

-- A document that is issued or has failed for good is immutable: every method throws, whatever its
-- arguments, with the code for its status, and leaves the document as it was.
pub final_document_refuses :
    (c : Call) (d : FiscalDocument)
    → (d.status ≡ issued) ⊎ (d.status ≡ failed)
    → run_call c d ≡ (err (refusal d.status), d)
final_document_refuses c d (inl h) = issued_immutable c d h ∙ sym (ap (λ s. (err (refusal s), d)) h)
final_document_refuses c d (inr h) = failed_immutable c d h ∙ sym (ap (λ s. (err (refusal s), d)) h)

-- If the printer was seen to commit, a document in error can only be issued: it is not retried, given
-- up, printed once more nor put in error again, since each of these methods throws, whatever its
-- arguments, and leaves the document as it was.
pub committed_never_retried :
    (d : FiscalDocument) (e x : Evidence) (p : Actor) (code : Text) (retryable : Bool)
    → d.status ≡ error
    → d.last_evidence ≡ some e
    → is_operation_committed e ≡ true
    → (begin_retry p d ≡ (err fiscal_retry_reconciliation_required, d))
      × (mark_failed p d ≡ (err fiscal_terminal_failure_evidence_required, d))
      × (start_printing p d ≡ (err fiscal_document_invalid_state, d))
      × (record_error code x retryable p d ≡ (err fiscal_document_invalid_state, d))
unfolding begin_retry mark_failed start_printing record_error
committed_never_retried d e x p code retryable s l c =
    ground (arith, retry_safe_is_uncommitted e, retry_safe_iff_terminal_failure_safe e)
