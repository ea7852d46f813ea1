-- ===== src/Fiscal/Day/Endings.antt =====
-- What can no longer change in a fiscal day.
use cullen.Prelude.{
  ℕ, ◌+◌, ◌≤◌, ◌≡◌, refl, sym, subst, ap, ◌∙◌, true, false, some, List, map, All, push, arith,
  is_empty, inl, inr,
}
use cullen.Prelude.Text.{Text, trim, is_invalid}
use cullen.Shared.Errors.{fiscal_report_number_required}
use cullen.Shared.Result.{ok, err, require_text}
use cullen.Fiscal.Evidence.{Evidence, is_operation_committed}
use cullen.Fiscal.Day.State.{
  FiscalDay, DayState, DayActor, z_pending, day_closed, report_z, issued, FiscalReport, set_at,
  locate, report, transition_report, event, date, report_issued,
}
use cullen.Fiscal.Day.Open.{OpenProps, open_day}
use cullen.Fiscal.Day.Methods.{
  is_z, is_open_for_issue, confirmed, state_after, mark_report_issued, DayCall, after_day_calls,
}
use cullen.Fiscal.Day.Slots.{
  get_at, get_at-map, map-get_at, get_at-set_at, get_at-set_at_same, get_at-push, count,
  count-get_at, All-get_at, All-set_at, some_injective, locate-get_at,
}
use cullen.Fiscal.Day.Shows.{core}
use cullen.Fiscal.Day.Steps.{is_live}
use cullen.Fiscal.Day.Kept.{after_day_calls-kept}
use cullen.Fiscal.Day.Invariant.{
  is_z_report, DayInv, only_z, enter-All, leave-All, Change-type, live_other, IsNumbered,
  reachable-DayInv, z_reports,
}

-- A Z report is issued.
abbrev IsSpent : FiscalReport → Type 0
IsSpent r = is_z_report r ≡ true → r.status ≡ issued

-- The day waits for its Z report, which can no longer change.
abbrev IsStuck : DayState → List FiscalReport → Type 0
IsStuck st rs = (st ≡ z_pending) × All IsSpent rs

spent_other : (r : FiscalReport) → IsSpent r → is_live r.status ≡ true → is_z_report r ≡ false
spent_other r n l = ground (arith, n, l)

-- A report that may still change can be replaced by one of its type.
replaced :
    (i : ℕ) (r r' : FiscalReport) (rs : List FiscalReport)
    → All IsSpent rs
    → get_at i rs ≡ some r
    → is_live r.status ≡ true
    → is_z_report r' ≡ is_z_report r
    → All IsSpent (set_at i r' rs)
replaced i r r' rs all at live e =
    All-set_at IsSpent i r' rs all
      (λ t. absurd (ground (arith, t, e, spent_other r (All-get_at IsSpent i r rs all at) live)))

stuck_state :
    (st : DayState) (rs : List FiscalReport) (i : ℕ) (r : FiscalReport)
    → IsStuck st rs
    → get_at i rs ≡ some r
    → is_live r.status ≡ true
    → state_after r.type day_closed st ≡ z_pending
stuck_state st rs i r v at live =
    ground (arith, v.0, spent_other r (All-get_at IsSpent i r rs v.1 at) live)

IsStuck-kept :
    (cs : List DayCall) (d : FiscalDay)
    → IsStuck d.state d.reports
    → IsStuck (after_day_calls cs d).state (after_day_calls cs d).reports
IsStuck-kept =
    after_day_calls-kept IsStuck (λ st rs v. (v.0, enter-All IsSpent (λ r. refl) rs v.1))
      (λ st rs v. (v.0, leave-All IsSpent (λ r. refl) rs v.1))
      (λ st rs i r r' v at live c. (v.0, replaced i r r' rs v.1 at live (Change-type r r' c)))
      (λ st rs i r n x v at live safe.
        (stuck_state st rs i r v at live, replaced i r (confirmed n x r) rs v.1 at live refl))
      (λ rs r v fresh blank. absurd (ground (arith, v.0)))

-- A live Z report is that of a day that waits for it.
awaited :
    (d : FiscalDay) (i : ℕ) (r : FiscalReport)
    → DayInv d.state d.reports
    → get_at i d.reports ≡ some r
    → is_z_report r ≡ true
    → is_live r.status ≡ true
    → (d.state ≡ z_pending) × (count is_z_report d.reports ≡ 1)
awaited d i r v at z live =
    let more : 1 ≤ count is_z_report d.reports = count-get_at is_z_report i r d.reports at z in
    let shut : d.state ≡ day_closed → is_z_report r ≡ false =
      λ c. live_other r (All-get_at IsNumbered i r d.reports (v.closed c) at) live in
    let waits : d.state ≡ z_pending = ground (arith, v.single, more, shut, z) in
    (waits, v.single ∙ ap z_reports waits)

module _ (id number : Text) (x : Evidence) (p : DayActor) (d : FiscalDay) where
  -- What a call without a number does to a report that could be issued.
  unnumbered :
      (i : ℕ) (r : FiscalReport)
      → locate (trim id) d.reports ≡ some (i, r)
      → is_open_for_issue r.status ≡ true
      → is_operation_committed x ≡ true
      → is_empty (trim number) ≡ true
      → mark_report_issued id number x p d ≡ (
        err fiscal_report_number_required,
        record d { reports = set_at i (record r { status = issued }) d.reports },
      )
  unfolding mark_report_issued report require_text
  unnumbered i r l s c b = ground (arith, l, s, c, b)

  -- A report that is printing, in error or being retried is issued by evidence of a commit, a number, an
  -- actor, a valid date and an event identity: the call succeeds, a Z report closes the day and an X
  -- report leaves its state, the version is raised by one, and one event tells the report's number.
  pub report_is_issued :
      (i : ℕ) (r : FiscalReport)
      → locate (trim id) d.reports ≡ some (i, r)
      → is_open_for_issue r.status ≡ true
      → is_operation_committed x ≡ true
      → is_empty (trim number) ≡ false
      → is_empty (trim p.actor_id) ≡ false
      → is_empty (trim p.event_id) ≡ false
      → is_invalid p.occurred_at ≡ false
      → let (outcome, e) = mark_report_issued id number x p d in
        (outcome ≡ ok tt)
        × (e.state ≡ state_after r.type day_closed d.state)
        × (e.version ≡ d.version + 1)
        × (e.events
            ≡ push d.events (record {
              body = report_issued r.type r.id (trim number) x;
              event_id = trim p.event_id;
              aggregate_id = d.id;
              aggregate_version = d.version + 1;
              occurred_at = p.occurred_at;
            }))
  unfolding mark_report_issued report require_text transition_report event date
  report_is_issued i r l s c n a e t = ground (arith, l, s, c, n, a, e, t)

-- The position holds this report, but for its transitions.
abbrev Holds : ℕ → FiscalReport → List FiscalReport → Type 0
Holds i r rs = (q : FiscalReport) × (get_at i rs ≡ some q) × (core q ≡ core r)

module _ (i : ℕ) (r : FiscalReport) (fixed : is_live r.status ≡ false) where
  enter-Holds : (rs : List FiscalReport) → Holds i r rs → Holds i r (map core rs)
  enter-Holds rs (q, at, e) = (core q, get_at-map core i q rs at, e)

  leave-Holds : (rs : List FiscalReport) → Holds i r (map core rs) → Holds i r rs
  leave-Holds rs (q, at, e) =
      let (q', at', e') = map-get_at core i q rs at in (q', at', ap core e' ∙ e)

  -- Writing to a report that may still change is writing elsewhere.
  written-Holds :
      (j : ℕ) (x y : FiscalReport) (rs : List FiscalReport)
      → Holds i r rs
      → get_at j rs ≡ some x
      → is_live x.status ≡ true
      → Holds i r (set_at j y rs)
  written-Holds j x y rs (q, at, e) here live = elim (get_at-set_at i j q y rs at) [
    | inr k ↦ (q, k, e)
    | inl same ↦
        let this : x ≡ q = some_injective (sym here ∙ sym (ap (λ n. get_at n rs) same) ∙ at) in
        let status : x.status ≡ r.status = ap (λ z. z.status) this ∙ ap (λ z. z.status) e in
        absurd (ground (arith, live, fixed, status))
  ]

  kept-Holds :
      (d : FiscalDay) (cs : List DayCall)
      → Holds i r d.reports
      → Holds i r (after_day_calls cs d).reports
  kept-Holds d cs =
      after_day_calls-kept (λ st rs. Holds i r rs) (λ st rs. enter-Holds rs)
        (λ st rs. leave-Holds rs) (λ st rs j x y v here live c. written-Holds j x y rs v here live)
        (λ st rs j x n y v here live safe. written-Holds j x (confirmed n y x) rs v here live)
        (λ rs x v fresh blank. (v.0, get_at-push i v.0 x rs v.1, v.2)) cs d

-- A report that is issued or has failed stays as it is: whatever is called on the day, successfully or
-- not, the report at its place has the same identity, type, status, number, error and evidence.
pub final_reports_frozen :
    (d : FiscalDay) (cs : List DayCall) (i : ℕ) (r : FiscalReport)
    → get_at i d.reports ≡ some r
    → is_live r.status ≡ false
    → get_at i (map core (after_day_calls cs d).reports) ≡ some (core r)
final_reports_frozen d cs i r at fixed =
    let (q, here, e) = kept-Holds i r fixed d cs (r, at, refl) in
    get_at-map core i q (after_day_calls cs d).reports here ∙ ap some e

module _ (id number : Text) (x : Evidence) (p : DayActor) (d : FiscalDay) where
  -- If the number of an issued Z report is blank, the call throws, but the report is taken for issued
  -- all the same. Whatever led to the day and whatever is called on it afterwards, the report stays
  -- issued, with the number, error and evidence it had before the call, and the day waits for its Z
  -- report for ever: it is never closed.
  pub blank_number_never_closes :
      (props : OpenProps) (opened : FiscalDay) (before after : List DayCall) (i : ℕ)
      (r : FiscalReport)
      → open_day props ≡ ok opened
      → after_day_calls before opened ≡ d
      → locate (trim id) d.reports ≡ some (i, r)
      → r.type ≡ report_z
      → is_open_for_issue r.status ≡ true
      → is_operation_committed x ≡ true
      → is_empty (trim number) ≡ true
      → let (outcome, e) = mark_report_issued id number x p d in
        (outcome ≡ err fiscal_report_number_required)
        × ((after_day_calls after e).state ≡ z_pending)
        × (get_at i (map core (after_day_calls after e).reports)
            ≡ some (core (record r { status = issued })))
  blank_number_never_closes props opened before after i r h led l z s c b =
      let v = subst (λ d. DayInv d.state d.reports) led (reachable-DayInv props opened before h) in
      let at = locate-get_at (trim id) i r d.reports l in
      let t : is_z_report r ≡ true = ap is_z z in
      let (waits, one) = awaited d i r v at t (ground (arith, s)) in
      let e = record d { reports = set_at i (record r { status = issued }) d.reports } in
      let same = unnumbered id number x p d i r l s c b in
      (
        ap (λ q. q.0) same,
        subst (λ q. (after_day_calls after q.1).state ≡ z_pending) (sym same)
            (IsStuck-kept after e (
              waits,
              only_z (λ q. q.status ≡ issued) i r (record r { status = issued }) d.reports one at t
                  refl,
            )).0,
        subst
            (λ q.
              get_at i (map core (after_day_calls after q.1).reports)
              ≡ some (core (record r { status = issued })))
            (sym same)
            (final_reports_frozen e after i (record r { status = issued })
              (get_at-set_at_same i r (record r { status = issued }) d.reports at) refl),
      )
