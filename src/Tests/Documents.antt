-- ===== src/Tests/Documents.antt =====
-- The theorems on fiscal documents, applied.
use cullen.Prelude.{◌≡◌, inl, refl, true, false, none, some, [], ◌∷◌}
use cullen.Prelude.Int.{pos, ◌+ℤ◌}
use cullen.Prelude.Text.{Text, codes, trim, trim_start, is_space, integer}
use cullen.Shared.Errors.{
  fiscal_document_issued_immutable, fiscal_retry_reconciliation_required,
  fiscal_terminal_failure_evidence_required, fiscal_actor_required, fiscal_document_invalid_state,
}
use cullen.Shared.Result.{err, require_text}
use cullen.Fiscal.Evidence.{
  Evidence, not_started, result_received, not_applied, applied, not_committed, committed,
  incomplete, complete, is_evidence_coherent, is_retry_safe, is_terminal_failure_safe,
  is_operation_committed,
}
use cullen.Fiscal.Evidence.Safety.{retry_safe_iff_terminal_failure_safe}
use cullen.Fiscal.Content.{Content, Line, invoice, validate_content, is_fiscal_currency}
use cullen.Fiscal.Content.Totals.{IsBalanced, validate_content-IsBalanced}
use cullen.Fiscal.Document.{
  FiscalDocument, start_call, issue_call, run_call, pending, printing, issued, failed, error,
  start_printing, mark_issued, record_error, begin_retry, mark_failed, Actor, transition,
  valid_date, create, document_pending, CreateProps,
}
use cullen.Fiscal.Document.Frozen.{final_document_refuses, committed_never_retried}
use cullen.Fiscal.Document.Invariant.{Inv, Reach, here, next, reachable-Inv}
use cullen.Fiscal.Document.Atomicity.{mark_issued_not_atomic}
use cullen.Fiscal.Document.Issue.{issue_reachable}
use cullen.Tests.Values.{usd, monday, tuesday}

-- The mapping to upper case of a text that is in upper case.
abbrev to_upper : Text → Text
to_upper t = t

abbrev coffee : Line
coffee = record {
  id = codes "l1";
  description = codes "Coffee";
  quantity_scaled = integer (pos 1);
  quantity_scale = integer (pos 0);
  unit_price_minor_units = integer (pos 300);
  tax_rate_basis_points = integer (pos 1600);
  total_minor_units = integer (pos 348);
}

abbrev content : Content
content = record {
  reference_id = codes "s1";
  type = invoice;
  currency_code = usd;
  lines = coffee ∷ [];
  payments = record { method_code = codes "CASH_USD"; amount_minor_units = integer (pos 348) } ∷ [];
  total_minor_units = integer (pos 348);
  recipient = none;
}

abbrev props : CreateProps
props = record {
  id = codes "d1";
  content = content;
  idempotency_key = codes "k1";
  request_fingerprint = codes "f1";
  terminal_id = codes "t1";
  origin_node_id = codes "n1";
  created_by = codes "ana";
  created_at = monday;
  event_id = codes "e1";
}

abbrev document : FiscalDocument
document = record {
  id = codes "d1";
  content = content;
  idempotency_key = codes "k1";
  request_fingerprint = codes "f1";
  terminal_id = codes "t1";
  origin_node_id = codes "n1";
  created_by = codes "ana";
  created_at = monday;
  status = pending;
  version = 1;
  attempts = 0;
  fiscal_number = none;
  last_error_code = none;
  last_evidence = none;
  last_failure_retryable = false;
  transitions =
      record {
        event_id = codes "e1";
        version = 1;
        from = none;
        to = pending;
        actor_id = codes "ana";
        occurred_at = monday;
        error_code = none;
        evidence = none;
      }
      ∷ [];
  events =
      record {
        body = document_pending (codes "s1") invoice;
        event_id = codes "e1";
        aggregate_id = codes "d1";
        aggregate_version = 1;
        occurred_at = monday;
      }
      ∷ [];
}

abbrev actor : Actor
actor = record { actor_id = codes "ana"; occurred_at = tuesday; event_id = codes "e2" }

abbrev nobody : Actor
nobody = record { actor_id = codes " "; occurred_at = tuesday; event_id = codes "e2" }

abbrev printed : Evidence
printed = record {
  dispatch_state = result_received;
  command_effect = applied;
  fiscal_commit = committed;
  print_delivery = complete;
}

abbrev not_sent : Evidence
not_sent = record {
  dispatch_state = not_started;
  command_effect = not_applied;
  fiscal_commit = not_committed;
  print_delivery = incomplete;
}

abbrev printing_document : FiscalDocument
printing_document = record document { status = printing; version = 2; attempts = 1 }

abbrev issued_document : FiscalDocument
issued_document = record document {
  status = issued;
  version = 3;
  attempts = 1;
  fiscal_number = some (codes "00001");
}

abbrev failed_document : FiscalDocument
failed_document = record document {
  status = failed;
  version = 4;
  attempts = 1;
  last_evidence = some not_sent;
}

abbrev doubtful_document : FiscalDocument
doubtful_document = record document {
  status = error;
  version = 3;
  attempts = 1;
  last_error_code = some (codes "PAPER");
  last_evidence = some printed;
  last_failure_retryable = true;
}

retry_safe_iff_terminal_failure_safe_example :
    is_retry_safe printed ≡ is_terminal_failure_safe printed
retry_safe_iff_terminal_failure_safe_example = retry_safe_iff_terminal_failure_safe printed

validate_content-IsBalanced_example :
    IsBalanced content
    × (content ≡ record content { currency_code = to_upper (trim usd) })
    × (is_fiscal_currency usd ≡ true)
unfolding validate_content require_text trim trim_start is_space is_fiscal_currency ◌+ℤ◌
validate_content-IsBalanced_example = validate_content-IsBalanced to_upper content content refl

final_document_refuses_example :
    run_call (issue_call (codes "00002") printed actor) issued_document
    ≡ (err fiscal_document_issued_immutable, issued_document)
final_document_refuses_example =
    final_document_refuses (issue_call (codes "00002") printed actor) issued_document (inl refl)

committed_never_retried_example :
    (begin_retry actor doubtful_document
      ≡ (err fiscal_retry_reconciliation_required, doubtful_document))
    × (mark_failed actor doubtful_document
        ≡ (err fiscal_terminal_failure_evidence_required, doubtful_document))
    × (start_printing actor doubtful_document
        ≡ (err fiscal_document_invalid_state, doubtful_document))
    × (record_error (codes "PAPER") not_sent true actor doubtful_document
        ≡ (err fiscal_document_invalid_state, doubtful_document))
unfolding is_operation_committed is_evidence_coherent
committed_never_retried_example =
    committed_never_retried doubtful_document printed not_sent actor (codes "PAPER") true refl refl
      refl

issue_reachable_example :
    (e : FiscalDocument) × Reach document e
    × (e.status ≡ issued)
    × (e.fiscal_number ≡ some (trim (codes "00001")))
unfolding is_operation_committed is_evidence_coherent trim trim_start is_space
issue_reachable_example =
    issue_reachable (codes "00001") printed actor refl refl refl refl refl document refl refl

mark_issued_not_atomic_example :
    let (r, e) = mark_issued (codes "00001") printed nobody printing_document in
    (r ≡ err fiscal_actor_required)
    × (e.status ≡ issued)
    × (e.fiscal_number ≡ some (trim (codes "00001")))
    × (e.version ≡ 3)
    × (e.transitions ≡ document.transitions)
    × (e.events ≡ document.events)
unfolding is_operation_committed is_evidence_coherent trim trim_start is_space
mark_issued_not_atomic_example =
    mark_issued_not_atomic (codes "00001") printed nobody printing_document (inl refl) refl refl
      refl

reachable-Inv_example : Inv (run_call (start_call actor) document).1
unfolding create validate_content require_text trim trim_start is_space is_fiscal_currency ◌+ℤ◌
    valid_date run_call start_printing transition
reachable-Inv_example =
    reachable-Inv to_upper props document (run_call (start_call actor) document).1 refl
      (next (start_call actor) here refl)
