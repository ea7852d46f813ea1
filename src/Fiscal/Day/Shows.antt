-- ===== src/Fiscal/Day/Shows.antt =====
-- fiscal-day.ts: what the end of each method, which records the transition and the event, leaves as it was.
use cullen.Prelude.{ℕ, ◌≡◌, sym, ap, ◌∙◌, Option, List, [], map, push, arith}
use cullen.Prelude.Text.{Text, Date}
use cullen.Shared.Result.{Result}
use cullen.Shared.Action.{Action, lift, ◌>>=◌}
use cullen.Shared.Action.Preserves.{Preserves, bind-Preserves}
use cullen.Fiscal.Evidence.{Evidence}
use cullen.Fiscal.Day.State.{
  FiscalDay, DayState, FiscalReport, ReportState, DayActor, DayEventBody, set_at, assign,
  new_transition, store, transition_report, event,
}
use cullen.Fiscal.Day.Slots.{set_at-set_at, map-set_at}

-- A report without the record of its transitions.
abbrev pub core : FiscalReport → FiscalReport
core r = record r { transitions = [] }

-- The day is in this state, and these are its reports but for their transitions.
abbrev pub Shows : DayState → List FiscalReport → FiscalDay → Type 0
Shows st cs d = (d.state ≡ st) × (map core d.reports ≡ cs)

-- The end of a method.
abbrev pub finish :
    ℕ
    → FiscalReport
    → Option ReportState
    → ReportState
    → DayActor
    → Option Text
    → Option Evidence
    → (FiscalReport → DayEventBody)
    → Action FiscalDay (Unit {0})
finish i r from to p code x b =
    transition_report i r from to p code x >>= λ r'. event (b r') p.event_id p.occurred_at

module _ (st : DayState) (cs : List FiscalReport) where
  lift-Shows : {A : Type 0} (r : Result A) → Preserves (Shows st cs) (lift r)
  lift-Shows r s h = h

  assign-Shows :
      (i : ℕ) (r : FiscalReport) → set_at i (core r) cs ≡ cs → Preserves (Shows st cs) (assign i r)
  assign-Shows i r same d h =
      (h.0, map-set_at core i r d.reports ∙ ap (set_at i (core r)) h.1 ∙ same)

  event-Shows : (b : DayEventBody) (id : Text) (t : Date) → Preserves (Shows st cs) (event b id t)
  unfolding event
  event-Shows b id t d h = ground (arith, h)

  new_transition-Shows :
      (from : Option ReportState) (to : ReportState) (p : DayActor) (code : Option Text)
      (x : Option Evidence)
      → Preserves (Shows st cs) (new_transition from to p code x)
  unfolding new_transition
  new_transition-Shows from to p code x d h = ground (arith, h)

  transition-Shows :
      (i : ℕ) (r : FiscalReport) (from : Option ReportState) (to : ReportState) (p : DayActor)
      (code : Option Text) (x : Option Evidence)
      → set_at i (core r) cs ≡ cs
      → Preserves (Shows st cs) (transition_report i r from to p code x)
  unfolding transition_report
  transition-Shows i r from to p code x same =
      bind-Preserves (Shows st cs) (new_transition from to p code x) (store i r)
        (new_transition-Shows from to p code x)
        (λ t d h. assign-Shows i (record r { transitions = push r.transitions t }) same d h)

  pub finish-Shows :
      (i : ℕ) (r : FiscalReport) (from : Option ReportState) (to : ReportState) (p : DayActor)
      (code : Option Text) (x : Option Evidence) (b : FiscalReport → DayEventBody)
      → set_at i (core r) cs ≡ cs
      → Preserves (Shows st cs) (finish i r from to p code x b)
  finish-Shows i r from to p code x b same =
      bind-Preserves (Shows st cs) (transition_report i r from to p code x)
        (λ r'. event (b r') p.event_id p.occurred_at) (transition-Shows i r from to p code x same)
        (λ r'. event-Shows (b r') p.event_id p.occurred_at)

-- Writing the same to a position that was written to changes nothing.
pub written :
    (i : ℕ) (r : FiscalReport) (rs : List FiscalReport)
    → set_at i (core r) (map core (set_at i r rs)) ≡ map core (set_at i r rs)
written i r rs =
    ap (set_at i (core r)) (map-set_at core i r rs)
    ∙ set_at-set_at i (core r) (core r) (map core rs)
    ∙ sym (map-set_at core i r rs)
