-- ===== src/Cash/Shift/Close.antt =====
-- shift.ts: `Shift.close`.
use cullen.Prelude.{Bool, some, List, []}
use cullen.Prelude.Text.{Text, trim, Date}
use cullen.Shared.Errors.{shift_actor_required}
use cullen.Shared.Result.{require_text}
use cullen.Shared.Action.{Action, lift, reads, modify, ◌>>=◌, ◌>>◌}
use cullen.Cash.Balances.{expected_balances}
use cullen.Cash.Shift.Reckoning.{declare_balances, map_of, reckon}
use cullen.Cash.Shift.State.{Shift, closed_shift, shift_closed}
use cullen.Cash.Shift.Methods.{
  assert_open, assert_ownership, assert_occurred_during_shift, record_event,
}
use cullen.Cash.Shift.Reckoning.{DeclaredBalance}

-- `CloseShiftProps`
pub record CloseProps : Type 0 where
  pub declared_balances : List DeclaredBalance
  pub closed_by : Text
  pub terminal_id : Text
  pub origin_node_id : Text
  pub closed_at : Date
  pub event_id : Text

module _ (locale_le : Text → Text → Bool) where
  -- `close`
  unfoldable pub close : CloseProps → Action Shift (Unit {0})
  unfolding record_event
  close props = do
    assert_open
    assert_ownership props.terminal_id props.origin_node_id
    assert_occurred_during_shift props.closed_at
    lift (require_text props.closed_by shift_actor_required)
    declared ← lift (declare_balances [] props.declared_balances)
    expected ← reads (λ s. expected_balances locale_le s.movements)
    closing_balances ← lift (reckon (map_of expected []) declared)
    modify λ s. record s {
      status = closed_shift;
      closing_balances = some closing_balances;
      closed_at = some props.closed_at;
      closed_by = some (trim props.closed_by);
    }
    record_event (shift_closed (trim props.closed_by) closing_balances) props.event_id
        props.closed_at
