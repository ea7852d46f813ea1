-- ===== src/Fiscal/Document/Atomicity.antt =====
-- What a refused transition to issued leaves behind.
use cullen.Prelude.{◌≡◌, ◌+◌, true, false, some, arith, is_empty, ◌⊎◌}
use cullen.Prelude.Text.{Text, trim}
use cullen.Shared.Errors.{fiscal_actor_required}
use cullen.Shared.Result.{err, require_text}
use cullen.Fiscal.Evidence.{Evidence, is_operation_committed}
use cullen.Fiscal.Document.{
  FiscalDocument, issued, error, printing, retrying, mark_issued, Actor, transition,
}

module _ (number : Text) (x : Evidence) (p : Actor) (d : FiscalDocument)
    (open_status : (d.status ≡ printing) ⊎ (d.status ≡ error) ⊎ (d.status ≡ retrying))
    (evidence : is_operation_committed x ≡ true) (numbered : is_empty (trim number) ≡ false) where
  -- If only the actor is blank, the call throws, but the document is issued all the same, with its version
  -- raised and its number stored, and with no transition or event to show for it.
  pub mark_issued_not_atomic :
      is_empty (trim p.actor_id) ≡ true
      → let (r, e) = mark_issued number x p d in
        (r ≡ err fiscal_actor_required)
        × (e.status ≡ issued)
        × (e.fiscal_number ≡ some (trim number))
        × (e.version ≡ d.version + 1)
        × (e.transitions ≡ d.transitions)
        × (e.events ≡ d.events)
  unfolding mark_issued transition require_text
  mark_issued_not_atomic blank = ground arith
