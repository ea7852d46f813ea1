-- ===== src/Fiscal/Document/Invariant.antt =====
-- What holds of every document that successful calls lead to.
use cullen.Prelude.{
  ℕ, ◌+◌, ◌≡◌, refl, sym, subst, ◌∙◌, Bool, true, false, none, some, List, [], ◌∷◌, arith, length,
  length-push, push, if◌then◌else◌,
}
use cullen.Prelude.Text.{Text, trim}
use cullen.Shared.Result.{ok, require_text}
use cullen.Fiscal.Evidence.{
  Evidence, is_retry_safe, is_operation_committed, is_terminal_failure_safe,
}
use cullen.Fiscal.Document.{
  FiscalDocument, DocumentState, Transition, Call, start_call, issue_call, error_call, retry_call,
  fail_call, run_call, pending, printing, issued, error, retrying, failed, start_printing,
  mark_issued, record_error, begin_retry, mark_failed, Actor, create, CreateProps, has, transition,
  valid_date, printing_started, document_issued, error_recorded, document_retrying, document_failed,
  EventBody, Event,
}

abbrev is_print_to : DocumentState → Bool
is_print_to s = elim s [ printing ↦ true | _ ↦ false ]

-- Whether a transition ends in printing.
abbrev is_print : Transition → Bool
is_print t = is_print_to t.to

abbrev pub prints : List Transition → ℕ
prints [] = 0
prints (t ∷ ts) = (if is_print t then 1 else 0) + prints ts

prints-push :
    (ts : List Transition) (t : Transition)
    → prints (push ts t) ≡ prints ts + (if is_print t then 1 else 0)
prints-push [] t = omega arith
prints-push (x ∷ ts) t = omega (arith, prints-push ts t)

-- What the status says of the rest of the document: an issued one has a number and evidence of a
-- commit; one that has failed or is retrying has evidence that nothing was committed; in no other
-- state is there a number.
abbrev pub StatusAgrees : DocumentState → FiscalDocument → Type 0
StatusAgrees pending d = (d.fiscal_number ≡ none) × (d.last_evidence ≡ none)
StatusAgrees printing d = (d.fiscal_number ≡ none) × (d.last_evidence ≡ none)
StatusAgrees issued d =
    ((n : Text) × (d.fiscal_number ≡ some n)) × (has is_operation_committed d.last_evidence ≡ true)
StatusAgrees error d = (d.fiscal_number ≡ none) × ((c : Text) × (d.last_error_code ≡ some c))
StatusAgrees retrying d = (d.fiscal_number ≡ none) × (has is_retry_safe d.last_evidence ≡ true)
StatusAgrees failed d =
    (d.fiscal_number ≡ none) × (has is_terminal_failure_safe d.last_evidence ≡ true)

pub record Inv (d : FiscalDocument) : Type 0 where
  pub agrees : StatusAgrees d.status d
  pub versioned : length d.transitions ≡ d.version
  pub recorded : length d.events ≡ d.version
  pub counted : prints d.transitions ≡ d.attempts

-- A document after a sequence of calls that all succeed.
pub data Reach (d : FiscalDocument) : FiscalDocument → Type 0 where
  here : Reach d d
  next : {e f : FiscalDocument} (c : Call) → Reach d e → run_call c e ≡ (ok tt, f) → Reach d f

new_transition : DocumentState → Actor → FiscalDocument → Transition
new_transition to p d = record {
  event_id = trim p.event_id;
  version = d.version + 1;
  from = some d.status;
  to = to;
  actor_id = trim p.actor_id;
  occurred_at = p.occurred_at;
  error_code = d.last_error_code;
  evidence = d.last_evidence;
}

new_event : Actor → EventBody → FiscalDocument → Event
new_event p body d = record {
  body = body;
  event_id = trim p.event_id;
  aggregate_id = d.id;
  aggregate_version = d.version + 1;
  occurred_at = p.occurred_at;
}

-- The document after a transition that succeeds.
abbrev after : DocumentState → Actor → EventBody → FiscalDocument → FiscalDocument
after to p body d = record d {
  status = to;
  version = d.version + 1;
  transitions = push d.transitions (new_transition to p d);
  events = push d.events (new_event p body d);
}

transition-eq-ok :
    (to : DocumentState) (p : Actor) (body : EventBody) (d e : FiscalDocument)
    → transition to p body d ≡ (ok tt, e)
    → e ≡ after to p body d
unfolding transition require_text valid_date new_transition new_event
transition-eq-ok to p body d e h = ground arith

is_print_state : DocumentState → ℕ
is_print_state s = if is_print_to s then 1 else 0

-- A transition keeps the counts, and the status agrees if it agreed with the new status before.
after-Inv :
    (to : DocumentState) (p : Actor) (body : EventBody) (d : FiscalDocument)
    → StatusAgrees to (after to p body d)
    → length d.transitions ≡ d.version
    → length d.events ≡ d.version
    → prints d.transitions + is_print_state to ≡ d.attempts
    → Inv (after to p body d)
unfolding is_print_state new_transition
after-Inv to p body d a v r c = record {
  agrees = a;
  versioned = omega (arith, length-push d.transitions (new_transition to p d));
  recorded = omega (arith, length-push d.events (new_event p body d));
  counted = prints-push d.transitions (new_transition to p d) ∙ c;
}

started : FiscalDocument → FiscalDocument
started d = record d {
  attempts = d.attempts + 1;
  last_error_code = none;
  last_evidence = none;
  last_failure_retryable = false;
}

start_printing-Inv :
    (p : Actor) (d e : FiscalDocument) → Inv d → start_printing p d ≡ (ok tt, e) → Inv e
unfolding start_printing started is_print_state
start_printing-Inv p d e v h =
    let body = printing_started (d.attempts + 1) in
    subst Inv (sym (transition-eq-ok printing p body (started d) e (ground arith)))
      (after-Inv printing p body (started d) (ground arith) v.versioned v.recorded (omega arith))

confirmed : Text → Evidence → FiscalDocument → FiscalDocument
confirmed n x d = record d {
  fiscal_number = some (trim n);
  last_error_code = none;
  last_evidence = some x;
  last_failure_retryable = false;
}

mark_issued-Inv :
    (n : Text) (x : Evidence) (p : Actor) (d e : FiscalDocument)
    → Inv d
    → mark_issued n x p d ≡ (ok tt, e)
    → Inv e
unfolding mark_issued confirmed is_print_state require_text
mark_issued-Inv n x p d e v h =
    let body = document_issued (some (trim n)) d.content.reference_id (some x) in
    subst Inv (sym (transition-eq-ok issued p body (confirmed n x d) e (ground arith))) (
      after-Inv issued p body (confirmed n x d) ((trim n, refl), ground arith) v.versioned
        v.recorded (omega arith))

noted : Text → Evidence → Bool → FiscalDocument → FiscalDocument
noted c x r d = record d {
  last_error_code = some (trim c);
  last_evidence = some x;
  last_failure_retryable = r;
}

record_error-Inv :
    (c : Text) (x : Evidence) (r : Bool) (p : Actor) (d e : FiscalDocument)
    → Inv d
    → record_error c x r p d ≡ (ok tt, e)
    → Inv e
unfolding record_error noted is_print_state require_text
record_error-Inv c x r p d e v h =
    let body = error_recorded c (some x) r in
    subst Inv (sym (transition-eq-ok error p body (noted c x r d) e (ground arith))) (
      after-Inv error p body (noted c x r d) (ground arith, (trim c, refl)) v.versioned v.recorded
        (omega arith))

begin_retry-Inv : (p : Actor) (d e : FiscalDocument) → Inv d → begin_retry p d ≡ (ok tt, e) → Inv e
unfolding begin_retry is_print_state
begin_retry-Inv p d e v h =
    let body = document_retrying d.last_error_code in
    subst Inv (sym (transition-eq-ok retrying p body d e (ground arith)))
      (after-Inv retrying p body d (ground arith) v.versioned v.recorded (omega arith))

mark_failed-Inv : (p : Actor) (d e : FiscalDocument) → Inv d → mark_failed p d ≡ (ok tt, e) → Inv e
unfolding mark_failed is_print_state
mark_failed-Inv p d e v h =
    let body = document_failed d.last_error_code in
    subst Inv (sym (transition-eq-ok failed p body d e (ground arith)))
      (after-Inv failed p body d (ground arith) v.versioned v.recorded (omega arith))

-- Each call that succeeds keeps the invariant.
pub run_call-Inv : (c : Call) (d e : FiscalDocument) → Inv d → run_call c d ≡ (ok tt, e) → Inv e
unfolding run_call
run_call-Inv (start_call p) d e v h = start_printing-Inv p d e v h
run_call-Inv (issue_call n x p) d e v h = mark_issued-Inv n x p d e v h
run_call-Inv (error_call c x r p) d e v h = record_error-Inv c x r p d e v h
run_call-Inv (retry_call p) d e v h = begin_retry-Inv p d e v h
run_call-Inv (fail_call p) d e v h = mark_failed-Inv p d e v h

Reach-Inv : {d e : FiscalDocument} → Inv d → Reach d e → Inv e
Reach-Inv v here = v
Reach-Inv v (next {e = e} {f = f} c r h) = run_call-Inv c e f (Reach-Inv v r) h

module _ (to_upper : Text → Text) where
  create-Inv : (props : CreateProps) (d : FiscalDocument) → create to_upper props ≡ ok d → Inv d
  unfolding create
  create-Inv props d h = ground arith

  -- Whatever calls succeed after a document is created, in any order: it has as many transitions and
  -- as many events as its version says; `attempts` counts the transitions to printing; an issued document
  -- has a number and evidence of a commit; one that is being retried, or has failed, has evidence
  -- that nothing was committed; a document in error has an error code; and only an issued one has
  -- a number.
  pub reachable-Inv :
      (props : CreateProps) (d e : FiscalDocument)
      → create to_upper props ≡ ok d
      → Reach d e
      → Inv e
  reachable-Inv props d e h r = Reach-Inv (create-Inv props d h) r
