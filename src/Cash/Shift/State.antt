-- ===== src/Cash/Shift/State.antt =====
-- shift.ts: the fields of `Shift`, its statuses and its events.
use cullen.Prelude.{ℕ, Option, List}
use cullen.Prelude.Text.{Text, Date}
use cullen.Shared.Money.{Money}
use cullen.Cash.Movement.{CashMovement}
use cullen.Cash.Balances.{ShiftBalance}

-- `ShiftStatus`
pub data ShiftStatus : Type 0 where
  open_shift closed_shift : ShiftStatus

-- `ShiftClosingBalance`
pub record ClosingBalance : Type 0 where
  pub payment_method_code : Text
  pub expected : Money
  pub declared : Money
  pub difference : Money

-- The type and the payload of a `ShiftDomainEvent`.
pub data ShiftEventBody : Type 0 where
  shift_opened : Text → Text → Text → Text → List ShiftBalance → ShiftEventBody
  movement_registered : CashMovement → ShiftEventBody
  shift_closed : Text → List ClosingBalance → ShiftEventBody

pub record ShiftEvent : Type 0 where
  pub body : ShiftEventBody
  pub event_id : Text
  pub aggregate_id : Text
  pub aggregate_version : ℕ
  pub occurred_at : Date

pub record Shift : Type 0 where
  pub id : Text
  pub cash_register_id : Text
  pub terminal_id : Text
  pub origin_node_id : Text
  pub opened_by : Text
  pub opened_at : Date
  pub movements : List CashMovement
  pub status : ShiftStatus
  pub version : ℕ
  pub closing_balances : Option (List ClosingBalance)
  pub closed_at : Option Date
  pub closed_by : Option Text
  pub events : List ShiftEvent
