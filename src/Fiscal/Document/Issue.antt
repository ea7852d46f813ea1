-- ===== src/Fiscal/Document/Issue.antt =====
-- That a document which is not at its end can still be issued.
use cullen.Prelude.{◌≡◌, ◌⊎◌, inl, inr, ap, refl, true, false, some, arith, is_empty}
use cullen.Prelude.Text.{Text, trim, is_invalid}
use cullen.Shared.Result.{ok, require_text}
use cullen.Fiscal.Evidence.{Evidence, is_operation_committed}
use cullen.Fiscal.Document.{
  FiscalDocument, DocumentState, pending, issued, error, printing, retrying, failed, mark_issued,
  start_printing, start_call, issue_call, run_call, Actor, transition, valid_date, is_issued,
  is_failed,
}
use cullen.Fiscal.Document.Invariant.{Reach, here, next}

abbrev IsUnderWay : DocumentState → Type 0
IsUnderWay s = (s ≡ printing) ⊎ (s ≡ error) ⊎ (s ≡ retrying)

not_final :
    (s : DocumentState) → is_issued s ≡ false → is_failed s ≡ false → (s ≡ pending) ⊎ IsUnderWay s
not_final pending i f = inl refl
not_final printing i f = inr (inl refl)
not_final error i f = inr (inr (inl refl))
not_final retrying i f = inr (inr (inr refl))
not_final issued i f = cc
not_final failed i f = cc

module _ (number : Text) (x : Evidence) (p : Actor) (evidence : is_operation_committed x ≡ true)
    (numbered : is_empty (trim number) ≡ false) (acted : is_empty (trim p.actor_id) ≡ false)
    (told : is_empty (trim p.event_id) ≡ false) (dated : is_invalid p.occurred_at ≡ false) where
  mark_issued_succeeds :
      (d : FiscalDocument)
      → IsUnderWay d.status
      → let (r, e) = mark_issued number x p d in
        (r ≡ ok tt) × (e.status ≡ issued) × (e.fiscal_number ≡ some (trim number))
  unfolding mark_issued transition require_text valid_date
  mark_issued_succeeds d s = ground arith

  start_printing_succeeds :
      (d : FiscalDocument)
      → d.status ≡ pending
      → let (r, e) = start_printing p d in (r ≡ ok tt) × (e.status ≡ printing)
  unfolding start_printing transition require_text valid_date
  start_printing_succeeds d s = ground arith

  issue_from :
      (d c : FiscalDocument)
      → Reach d c
      → IsUnderWay c.status
      → (e : FiscalDocument) × Reach d e
        × (e.status ≡ issued)
        × (e.fiscal_number ≡ some (trim number))
  unfolding run_call
  issue_from d c r s =
      let (o, i, n) = mark_issued_succeeds c s in
      let e = (mark_issued number x p c).1 in
      (e, next (issue_call number x p) r (ap (λ q. (q, e)) o), i, n)

  -- A document that is neither issued nor failed is never stuck: with a number, evidence of a commit, an
  -- actor, a valid date and an event identity, successful calls lead from it to an issued document
  -- with that number, trimmed.
  pub issue_reachable :
      (d : FiscalDocument)
      → is_issued d.status ≡ false
      → is_failed d.status ≡ false
      → (e : FiscalDocument) × Reach d e
        × (e.status ≡ issued)
        × (e.fiscal_number ≡ some (trim number))
  unfolding run_call
  issue_reachable d i f = elim (not_final d.status i f) [
    | inr s ↦ issue_from d d here s
    | inl s ↦
        let (o, printing_now) = start_printing_succeeds d s in
        let c = (start_printing p d).1 in
        issue_from d c (next (start_call p) here (ap (λ q. (q, c)) o)) (inl printing_now)
  ]
