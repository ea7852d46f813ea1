-- ===== src/Cash/Shift/Open.antt =====
-- shift.ts: `Shift.open`, `assertUniqueFunds` and `Shift.restore`.
use cullen.Prelude.{ℕ, Option, none, List, [], ◌∷◌, any, if◌then◌else◌}
use cullen.Prelude.Text.{Text, eqb, trim, codes, Date, is_invalid}
use cullen.Shared.Errors.{
  shift_id_required, shift_actor_required, shift_invalid_timestamp, shift_opening_balance_duplicate,
  cash_movement_duplicate,
}
use cullen.Shared.Result.{Result, ok, err, ◌>>=◌, ◌>>◌, throw_if, require_text, traverse}
use cullen.Shared.Money.{Money}
use cullen.Currency.PaymentMethod.{PaymentMethod}
use cullen.Cash.Movement.{
  CashMovement, CashRegister, opening_float, create_movement, assert_operational_for,
}
use cullen.Cash.Balances.{ShiftBalance, balance_key}
use cullen.Cash.Shift.State.{Shift, ShiftStatus, open_shift, ClosingBalance, shift_opened}

-- `OpeningFund`
pub record OpeningFund : Type 0 where
  pub id : Text
  pub method : PaymentMethod
  pub amount : Money

-- `OpenShiftProps`
pub record OpenProps : Type 0 where
  pub id : Text
  pub cash_register : CashRegister
  pub opening_funds : List OpeningFund
  pub opened_by : Text
  pub opened_at : Date
  pub event_id : Text

-- `assertUniqueFunds`, with the sets of keys and of identifiers so far.
unfoldable pub assert_unique_funds : List Text → List Text → List OpeningFund → Result (Unit {0})
assert_unique_funds keys ids [] = ok tt
assert_unique_funds keys ids (fund ∷ funds) =
    let key = balance_key fund.method.code fund.amount.currency in
    let rest = assert_unique_funds (key ∷ keys) (fund.id ∷ ids) funds in
    if any (eqb key) keys
    then err shift_opening_balance_duplicate
    else if any (eqb fund.id) ids
    then err cash_movement_duplicate
    else rest

abbrev opening_movement : OpenProps → OpeningFund → Result CashMovement
opening_movement props fund = create_movement (record {
  id = fund.id;
  type = opening_float;
  method = fund.method;
  amount = fund.amount;
  reason = codes "Opening float";
  registered_by = props.opened_by;
  registered_at = props.opened_at;
  reference = none;
})

abbrev opening_balances : List CashMovement → List ShiftBalance
opening_balances [] = []
opening_balances (m ∷ ms) =
    record { payment_method_code = m.method.code; amount = m.amount } ∷ opening_balances ms

abbrev opened : OpenProps → List CashMovement → Shift
opened props movements = record {
  id = trim props.id;
  cash_register_id = props.cash_register.id;
  terminal_id = props.cash_register.terminal_id;
  origin_node_id = props.cash_register.origin_node_id;
  opened_by = trim props.opened_by;
  opened_at = props.opened_at;
  movements = movements;
  status = open_shift;
  version = 1;
  closing_balances = none;
  closed_at = none;
  closed_by = none;
  events =
      record {
        body =
            shift_opened props.cash_register.id props.cash_register.terminal_id
              props.cash_register.origin_node_id props.opened_by (opening_balances movements);
        event_id = props.event_id;
        aggregate_id = props.id;
        aggregate_version = 1;
        occurred_at = props.opened_at;
      }
      ∷ [];
}

-- `Shift.open`
unfoldable pub open_new : OpenProps → Result Shift
unfolding assert_unique_funds
open_new props = do
  assert_operational_for props.cash_register props.cash_register.terminal_id
      props.cash_register.origin_node_id
  require_text props.id shift_id_required
  require_text props.opened_by shift_actor_required
  throw_if (is_invalid props.opened_at) shift_invalid_timestamp
  assert_unique_funds [] [] props.opening_funds
  movements ← traverse (opening_movement props) props.opening_funds
  ok (opened props movements)

-- `RestoredShiftProps`
pub record RestoredProps : Type 0 where
  pub id : Text
  pub cash_register_id : Text
  pub terminal_id : Text
  pub origin_node_id : Text
  pub opened_by : Text
  pub opened_at : Date
  pub movements : List CashMovement
  pub status : ShiftStatus
  pub version : ℕ
  pub closing_balances : Option (List ClosingBalance)
  pub closed_at : Option Date
  pub closed_by : Option Text

-- `Shift.restore`, which checks nothing and leaves no event.
unfoldable pub restore : RestoredProps → Shift
restore props = record {
  id = props.id;
  cash_register_id = props.cash_register_id;
  terminal_id = props.terminal_id;
  origin_node_id = props.origin_node_id;
  opened_by = props.opened_by;
  opened_at = props.opened_at;
  movements = props.movements;
  status = props.status;
  version = props.version;
  closing_balances = props.closing_balances;
  closed_at = props.closed_at;
  closed_by = props.closed_by;
  events = [];
}
