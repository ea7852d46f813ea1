-- ===== src/Fiscal/Day/Calls.antt =====
-- How each method of `FiscalDay` changes a day.
use cullen.Prelude.{
  ◌≡◌, refl, sym, subst, ap, ◌∙◌, inl, inr, Bool, false, not, ◌||◌, none, some, map, any, length,
  push, arith, Bool-cases,
}
use cullen.Prelude.Text.{Text, eqb, trim}
use cullen.Shared.Errors.{
  fiscal_error_code_required, fiscal_report_number_required, fiscal_report_id_required,
  fiscal_idempotency_key_required, fiscal_fingerprint_required, fiscal_actor_required,
}
use cullen.Shared.Result.{ok, Result-cases, require_text, >>=-eq-ok, ok_injective}
use cullen.Fiscal.Evidence.{
  Evidence, is_operation_committed, is_terminal_failure_safe, is_retry_safe, is_evidence_coherent,
  is_complete,
}
use cullen.Fiscal.Day.State.{
  FiscalDay, FiscalReport, DayActor, pending, issued, error, retrying, failed, printing, set_at,
  day_open, z_pending, day_closed, locate, found, report, date, report_printing_started,
  report_error_recorded, report_is_retrying, report_issued, report_failed, report_requested,
}
use cullen.Fiscal.Day.Open.{RequestProps, new_report}
use cullen.Fiscal.Day.Methods.{
  is_open_for_start, is_open_for_issue, is_open_for_failure, is_printing, is_error, passes, started,
  confirmed, noted, state_after, request_report, start_report, mark_report_issued,
  record_report_error, mark_report_failed, retry_report, is_open,
}
use cullen.Fiscal.Day.Slots.{set_at-set_at, set_at-push, map-set_at}
use cullen.Fiscal.Day.Shows.{core, Shows, finish, finish-Shows, written}
use cullen.Fiscal.Day.Steps.{
  starts, is_unnumbered, errs, is_uncoded, fails, retries, Moved, stays, changes, issues, requests,
  found-slot, changed,
}

module _ (id : Text) (p : DayActor) (d : FiscalDay) where
  pub start_report-Moved : Moved d (start_report id p d).1
  unfolding start_report report
  start_report-Moved = elim (Result-cases (found (locate (trim id) d.reports))) [
    | inr (x, f) ↦ stays (ground (arith, f))
    | inl ((i, r), f) ↦ elim (Bool-cases (is_open_for_start r.status)) [
      | inr shut ↦ stays (ground (arith, f, shut))
      | inl go ↦
          let (at, live) = found-slot (trim id) i r d.reports f in
          changed d i r at live (started r) (some r.status) printing p none none
            (λ q. report_printing_started q.id q.type q.attempts) (start_report id p d).1 starts
            (ground (arith, f, go))
    ]
  ]

  pub retry_report-Moved : Moved d (retry_report id p d).1
  unfolding retry_report report
  retry_report-Moved = elim (Result-cases (found (locate (trim id) d.reports))) [
    | inr (x, f) ↦ stays (ground (arith, f))
    | inl ((i, r), f) ↦
        elim (Bool-cases (
          not (is_error r.status)
          || not r.retryable
          || not (passes is_retry_safe r.last_evidence))) [
            | inl shut ↦ stays (ground (arith, f, shut))
            | inr go ↦
                let (at, live) = found-slot (trim id) i r d.reports f in
                changed d i r at live (record r { status = retrying }) (some error) retrying p
                  r.last_error_code r.last_evidence (λ q. report_is_retrying q.id)
                  (retry_report id p d).1 (retries (ground (arith, go))) (ground (arith, f, go))
          ]
  ]

  pub mark_report_failed-Moved : Moved d (mark_report_failed id p d).1
  unfolding mark_report_failed report
  mark_report_failed-Moved = elim (Result-cases (found (locate (trim id) d.reports))) [
    | inr (x, f) ↦ stays (ground (arith, f))
    | inl ((i, r), f) ↦ elim (Bool-cases (is_open_for_failure r.status)) [
      | inr shut ↦ stays (ground (arith, f, shut))
      | inl go ↦ elim (Bool-cases (passes is_terminal_failure_safe r.last_evidence)) [
        | inr unsafe ↦ stays (ground (arith, f, go, unsafe))
        | inl safe ↦
            let (at, live) = found-slot (trim id) i r d.reports f in
            changed d i r at live (record r { status = failed; retryable = false }) (some r.status)
              failed p r.last_error_code r.last_evidence
              (λ q. report_failed q.id q.last_error_code q.last_evidence)
              (mark_report_failed id p d).1 (fails safe) (ground (arith, f, go, safe))
      ]
    ]
  ]

  pub record_report_error-Moved :
      (code : Text) (x : Evidence) (again : Bool)
      → Moved d (record_report_error id code x again p d).1
  unfolding record_report_error report
  record_report_error-Moved code x again =
      elim (Result-cases (found (locate (trim id) d.reports))) [
        | inr (y, f) ↦ stays (ground (arith, f))
        | inl ((i, r), f) ↦ elim (Bool-cases (is_printing r.status)) [
          | inr shut ↦ stays (ground (arith, f, shut))
          | inl go ↦
              elim (Bool-cases (not (is_evidence_coherent x) || is_complete x.print_delivery)) [
                | inl bad ↦ stays (ground (arith, f, go, bad))
                | inr fine ↦
                    let (at, live) = found-slot (trim id) i r d.reports f in
                    elim (Result-cases (require_text code fiscal_error_code_required)) [
                      | inr (y, g) ↦
                          changes i r (record r { status = error }) at live is_uncoded
                            (ground (arith, f, go, fine, g))
                      | inl (c, g) ↦
                          changed d i r at live (noted c x again r) (some r.status) error p (some c)
                            (some x) (λ q. report_error_recorded q.id (some c) (some x))
                            (record_report_error id code x again p d).1 (errs c x again)
                            (ground (
                              arith,
                              f,
                              go,
                              fine,
                              g,
                              set_at-set_at i (record r { status = error }) (noted c x again r)
                                  d.reports,
                            ))
                    ]
              ]
        ]
      ]

  pub mark_report_issued-Moved :
      (number : Text) (x : Evidence) → Moved d (mark_report_issued id number x p d).1
  unfolding mark_report_issued report
  mark_report_issued-Moved number x = elim (Result-cases (found (locate (trim id) d.reports))) [
    | inr (y, f) ↦ stays (ground (arith, f))
    | inl ((i, r), f) ↦ elim (Bool-cases (is_open_for_issue r.status)) [
      | inr shut ↦ stays (ground (arith, f, shut))
      | inl go ↦ elim (Bool-cases (is_operation_committed x)) [
        | inr bad ↦ stays (ground (arith, f, go, bad))
        | inl safe ↦
            let (at, live) = found-slot (trim id) i r d.reports f in
            elim (Result-cases (require_text number fiscal_report_number_required)) [
              | inr (y, g) ↦
                  changes i r (record r { status = issued }) at live is_unnumbered
                    (ground (arith, f, go, safe, g))
              | inl (n, g) ↦
                  let st = state_after r.type day_closed d.state in
                  let rs = set_at i (confirmed n x r) d.reports in
                  let e =
                    (finish i (confirmed n x r) (some r.status) issued p none (some x)
                      (λ q. report_issued q.type q.id n x)
                      (record d { state = st; reports = rs })).1 in
                  let same : e ≡ (mark_report_issued id number x p d).1 = ground (
                    arith,
                    f,
                    go,
                    safe,
                    g,
                    set_at-set_at i (record r { status = issued }) (confirmed n x r) d.reports,
                  ) in
                  issues i r n x at live safe (
                    subst (Shows st (map core rs)) same (
                      finish-Shows st (map core rs) i (confirmed n x r) (some r.status) issued p
                        none (some x) (λ q. report_issued q.type q.id n x)
                        (written i (confirmed n x r) d.reports)
                        (record d { state = st; reports = rs }) (refl, refl)))
            ]
      ]
    ]
  ]

module _ (d : FiscalDay) (p : RequestProps) where
  new_report-fields :
      (r : FiscalReport)
      → new_report p ≡ ok r
      → (r.status ≡ pending) × (r.report_number ≡ none) × (r.type ≡ p.type)
  unfolding new_report
  new_report-fields r h =
      let (id, _, h1) = >>=-eq-ok (require_text p.id fiscal_report_id_required) _ h in
      let (key, _, h2) =
        >>=-eq-ok (require_text p.idempotency_key fiscal_idempotency_key_required) _ h1 in
      let (print, _, h3) =
        >>=-eq-ok (require_text p.request_fingerprint fiscal_fingerprint_required) _ h2 in
      let (actor, _, h4) = >>=-eq-ok (require_text p.actor.actor_id fiscal_actor_required) _ h3 in
      let (at, _, h5) = >>=-eq-ok (date p.actor.occurred_at) _ h4 in
      subst (λ x. (x.status ≡ pending) × (x.report_number ≡ none) × (x.type ≡ p.type))
        (ok_injective h5) (refl, refl, refl)

  pub request_report-Moved : Moved d (request_report p d).1
  unfolding request_report
  request_report-Moved = elim (Bool-cases (is_open d.state)) [
    | inr shut ↦ stays (ground (arith, shut))
    | inl go ↦
        elim (Bool-cases (
          any (λ r. eqb r.id p.id) d.reports
          || any (λ r. eqb r.idempotency_key p.idempotency_key) d.reports)) [
            | inl old ↦ stays (ground (arith, go, old))
            | inr new ↦ elim (Result-cases (new_report p)) [
              | inr (e, f) ↦ stays (ground (arith, go, new, f))
              | inl (r, f) ↦
                  let (s, n, t) = new_report-fields r f in
                  let st = state_after p.type z_pending d.state in
                  let rs = push d.reports r in
                  let e =
                    (finish (length d.reports) r none pending p.actor none none
                      (λ q. report_requested p.type q.id)
                      (record d { state = st; reports = rs })).1 in
                  let same : e ≡ (request_report p d).1 = ground (arith, go, new, f) in
                  let at : set_at (length d.reports) (core r) (map core rs) ≡ map core rs =
                    sym (map-set_at core (length d.reports) r rs)
                    ∙ ap (map core) (set_at-push r d.reports) in
                  let was : d.state ≡ day_open = ground (arith, go) in
                  requests r was s n (
                    subst (λ z. Shows z (map core rs) (request_report p d).1)
                      (ap (λ x. state_after p.type z_pending x) was
                        ∙ ap (λ y. state_after y z_pending day_open) (sym t))
                      (subst (Shows st (map core rs)) same (
                        finish-Shows st (map core rs) (length d.reports) r none pending p.actor none
                          none (λ q. report_requested p.type q.id) at
                          (record d { state = st; reports = rs }) (refl, refl))))
            ]
          ]
  ]
