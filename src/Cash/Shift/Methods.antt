-- ===== src/Cash/Shift/Methods.antt =====
-- shift.ts: the guards of `Shift`, `recordEvent` and `registerMovement`.
use cullen.Prelude.{
  ◌+◌, Bool, true, false, not, ◌&&◌, ◌||◌, Option, none, some, find?, push, if◌then◌else◌,
}
use cullen.Prelude.Int.{ltb_ℤ}
use cullen.Prelude.Text.{Text, eqb, Date, is_invalid, date_lt}
use cullen.Shared.Errors.{
  shift_invalid_timestamp, cash_movement_duplicate, cash_sale_payment_conflict,
  cash_withdrawal_insufficient_funds, shift_invalid_state, shift_ownership_mismatch,
  shift_timestamp_before_open,
}
use cullen.Shared.Result.{Result, ok, err}
use cullen.Shared.Action.{Action, pure, lift, reads, gets, throw_when, modify, ◌>>=◌, ◌>>◌}
use cullen.Cash.Movement.{CashMovement, is_sale_payment, is_withdrawal, create_movement, matches}
use cullen.Cash.Balances.{balance_for}
use cullen.Cash.Shift.State.{
  Shift, ShiftStatus, open_shift, closed_shift, ShiftEventBody, movement_registered,
}

abbrev pub is_open : ShiftStatus → Bool
is_open open_shift = true
is_open closed_shift = false

-- `assertOpen`
abbrev pub assert_open : Action Shift (Unit {0})
assert_open = throw_when (λ s. not (is_open s.status)) shift_invalid_state

-- `assertOwnership`
abbrev pub assert_ownership : Text → Text → Action Shift (Unit {0})
assert_ownership terminal_id origin_node_id =
    throw_when
      (λ s. not (eqb s.terminal_id terminal_id) || not (eqb s.origin_node_id origin_node_id))
      shift_ownership_mismatch

-- `assertOccurredDuringShift`
abbrev pub assert_occurred_during_shift : Date → Action Shift (Unit {0})
assert_occurred_during_shift timestamp = do
  throw_when (λ s. is_invalid timestamp) shift_invalid_timestamp
  throw_when (λ s. date_lt timestamp s.opened_at) shift_timestamp_before_open

-- `recordEvent`
unfoldable pub record_event : ShiftEventBody → Text → Date → Action Shift (Unit {0})
record_event body event_id occurred_at = modify λ s. record s {
  version = s.version + 1;
  events = push s.events (record {
    body = body;
    event_id = event_id;
    aggregate_id = s.id;
    aggregate_version = s.version + 1;
    occurred_at = occurred_at;
  });
}

-- `RegisterMovementProps`: the movement as it is asked for, and who asks.
pub record RegisterProps : Type 0 where
  pub movement : CashMovement
  pub terminal_id : Text
  pub origin_node_id : Text
  pub event_id : Text

-- The movement of the shift that has this identifier.
abbrev pub existing_movement : Text → Shift → Option CashMovement
existing_movement id s = find? (λ m. eqb m.id id) s.movements

-- What a movement that is already there means for the call: nothing, a repeated sale payment, or
-- an error.
abbrev pub replay : Option CashMovement → CashMovement → Option (Result CashMovement)
replay none props = none
replay (some m) props =
    if is_sale_payment m.type && is_sale_payment props.type
    then (if matches m props then some (ok m) else some (err cash_sale_payment_conflict))
    else some (err cash_movement_duplicate)

module _ (locale_le : Text → Text → Bool) where
  -- The check that a withdrawal is covered.
  unfoldable pub assert_covered : CashMovement → Shift → Result (Unit {0})
  assert_covered m s =
      if is_withdrawal m.type
      then elim (balance_for locale_le s.movements m.method.code m.amount.currency) [
        | ok available ↦
            if ltb_ℤ available.minor_units m.amount.minor_units
            then err cash_withdrawal_insufficient_funds
            else ok tt
        | err e ↦ err e
      ]
      else ok tt

  -- The rest of `registerMovement`, for a movement whose identifier is new.
  unfoldable pub register_new : RegisterProps → Action Shift CashMovement
  unfolding record_event
  register_new props = do
    assert_open
    assert_occurred_during_shift props.movement.registered_at
    movement ← lift (create_movement props.movement)
    reads (assert_covered movement)
    modify (λ s. record s { movements = push s.movements movement })
    record_event (movement_registered movement) props.event_id props.movement.registered_at
    pure movement

  -- `registerMovement`
  unfoldable pub register_movement : RegisterProps → Action Shift CashMovement
  register_movement props = do
    assert_ownership props.terminal_id props.origin_node_id
    known ← gets (λ s. replay (existing_movement props.movement.id s) props.movement)
    elim known [ none ↦ register_new props | some outcome ↦ lift outcome ]
