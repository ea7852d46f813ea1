-- ===== src/Cash/Movement.antt =====
-- packages/core/src/domain/cash/cash-movement.ts and cash-register.ts.
use cullen.Prelude.{Bool, true, false, not, ◌&&◌, ◌||◌, Option, none, some, is_empty}
use cullen.Prelude.Int.{pos, leb_ℤ, eqb_ℤ}
use cullen.Prelude.Text.{Text, eqb, trim, Date, is_invalid, date_eqb}
use cullen.Shared.Errors.{
  cash_movement_id_required, cash_movement_invalid_amount, payment_method_inactive,
  cash_payment_method_required, payment_method_currency_mismatch, cash_movement_reason_required,
  cash_movement_actor_required, cash_movement_invalid_timestamp,
  cash_sale_payment_reference_required, cash_register_id_required, cash_register_name_required,
  cash_register_terminal_required, cash_register_node_required, cash_register_inactive,
  cash_register_ownership_mismatch,
}
use cullen.Shared.Result.{Result, ok, ◌>>=◌, ◌>>◌, throw_if, require_text}
use cullen.Shared.Money.{Money}
use cullen.Currency.PaymentMethod.{PaymentMethod, is_cash, active_or_true}

-- `CashMovementType`; the check that a type is one of these is the type's here.
pub data MovementType : Type 0 where
  opening_float income withdrawal sale_payment sale_refund : MovementType

abbrev pub is_sale_payment : MovementType → Bool
is_sale_payment t = elim t [ sale_payment ↦ true | _ ↦ false ]

abbrev pub is_withdrawal : MovementType → Bool
is_withdrawal t = elim t [ withdrawal ↦ true | _ ↦ false ]

-- `SALE_LINKED_TYPES.includes(type)`
abbrev pub is_sale_linked : MovementType → Bool
is_sale_linked t = elim t [ sale_payment ↦ true | sale_refund ↦ true | _ ↦ false ]

-- `===` on movement types
abbrev pub type_eqb : MovementType → MovementType → Bool
type_eqb opening_float t = elim t [ opening_float ↦ true | _ ↦ false ]
type_eqb income t = elim t [ income ↦ true | _ ↦ false ]
type_eqb withdrawal t = elim t [ withdrawal ↦ true | _ ↦ false ]
type_eqb sale_payment t = elim t [ sale_payment ↦ true | _ ↦ false ]
type_eqb sale_refund t = elim t [ sale_refund ↦ true | _ ↦ false ]

-- `CashMovementReference`
pub record Reference : Type 0 where
  pub source_id : Text
  pub source_event_id : Text

-- `CashMovementProps`; also the fields of a `CashMovement`, which are these after the checks.
pub record CashMovement : Type 0 where
  pub id : Text
  pub type : MovementType
  pub method : PaymentMethod
  pub amount : Money
  pub reason : Text
  pub registered_by : Text
  pub registered_at : Date
  pub reference : Option Reference

abbrev pub trim_reference : Option Reference → Option Reference
trim_reference none = none
trim_reference (some r) =
    some (record { source_id = trim r.source_id; source_event_id = trim r.source_event_id })

-- `reference === null || sourceId.length === 0 || sourceEventId.length === 0`
abbrev lacks_reference : Option Reference → Bool
lacks_reference none = true
lacks_reference (some r) = is_empty r.source_id || is_empty r.source_event_id

-- `CashMovement.create`
unfoldable pub create_movement : CashMovement → Result CashMovement
create_movement props = do
  id ← require_text props.id cash_movement_id_required
  throw_if (leb_ℤ props.amount.minor_units (pos 0)) cash_movement_invalid_amount
  throw_if (not props.method.is_active) payment_method_inactive
  throw_if (not (is_sale_linked props.type) && not (is_cash props.method.kind))
      cash_payment_method_required
  throw_if (not (eqb props.method.currency_code props.amount.currency))
      payment_method_currency_mismatch
  reason ← require_text props.reason cash_movement_reason_required
  registered_by ← require_text props.registered_by cash_movement_actor_required
  throw_if (is_invalid props.registered_at) cash_movement_invalid_timestamp
  throw_if (is_sale_linked props.type && lacks_reference (trim_reference props.reference))
      cash_sale_payment_reference_required
  ok (record props {
    id = id;
    reason = reason;
    registered_by = registered_by;
    reference = trim_reference props.reference;
  })

-- `left?.sourceId === right?.sourceId && left?.sourceEventId === right?.sourceEventId`
abbrev pub reference_eqb : Option Reference → Option Reference → Bool
reference_eqb none none = true
reference_eqb none (some r) = false
reference_eqb (some r) none = false
reference_eqb (some r) (some s) =
    eqb r.source_id s.source_id && eqb r.source_event_id s.source_event_id

-- `matches`
unfoldable pub matches : CashMovement → CashMovement → Bool
matches m props =
    type_eqb m.type props.type
    && eqb m.method.code props.method.code
    && eqb m.amount.currency props.amount.currency
    && eqb_ℤ m.amount.minor_units props.amount.minor_units
    && eqb m.reason (trim props.reason)
    && eqb m.registered_by (trim props.registered_by)
    && date_eqb m.registered_at props.registered_at
    && reference_eqb m.reference (trim_reference props.reference)

pub record CashRegister : Type 0 where
  pub id : Text
  pub name : Text
  pub terminal_id : Text
  pub origin_node_id : Text
  pub is_active : Bool

-- `CashRegister.create`
unfoldable pub create_register : Text → Text → Text → Text → Option Bool → Result CashRegister
create_register id name terminal_id origin_node_id is_active = do
  id' ← require_text id cash_register_id_required
  name' ← require_text name cash_register_name_required
  terminal_id' ← require_text terminal_id cash_register_terminal_required
  origin_node_id' ← require_text origin_node_id cash_register_node_required
  ok (record {
    id = id';
    name = name';
    terminal_id = terminal_id';
    origin_node_id = origin_node_id';
    is_active = active_or_true is_active;
  })

-- `assertOperationalFor`
unfoldable pub assert_operational_for : CashRegister → Text → Text → Result (Unit {0})
assert_operational_for r terminal_id origin_node_id = do
  throw_if (not r.is_active) cash_register_inactive
  throw_if (not (eqb r.terminal_id terminal_id) || not (eqb r.origin_node_id origin_node_id))
      cash_register_ownership_mismatch
