-- ===== src/Sales/Return.antt =====
-- packages/core/src/domain/sales/sale-return.ts: the return of a whole sale.
pub mod Restored
use cullen.Prelude.{
  Bool, true, false, Option, none, some, List, [], ◌∷◌, ◌++◌, any, is_empty, map, length, ℕ,
  if◌then◌else◌,
}
use cullen.Prelude.Int.{pos, leb_ℤ}
use cullen.Prelude.Text.{Text, eqb, trim, Date, is_invalid}
use cullen.Prelude.Text.Decimal.{show_ℤ}
use cullen.Shared.Errors.{
  sale_return_lines_required, sale_return_refund_invalid, sale_return_timestamp_invalid,
  sale_return_sale_item_required, sale_return_line_duplicated, sale_return_quantity_invalid,
  sale_return_id_required, sale_return_sale_required, sale_return_document_required,
  sale_return_credit_note_required, sale_return_shift_required, sale_return_payment_method_required,
  sale_return_reason_required, sale_return_actor_required, sale_return_terminal_required,
  sale_return_node_required, sale_return_sale_event_required, sale_return_event_id_required,
}
use cullen.Shared.Result.{Result, ok, err, ◌>>=◌, ◌>>◌, throw_if, require_text}
use cullen.Shared.Money.{Money}
use cullen.Shared.Quantity.{Quantity}
use cullen.Inventory.Maps.{set_add}

-- `SaleReturnLine`
pub record ReturnLine : Type 0 where
  pub id : Text
  pub sale_item_id : Text
  pub product_id : Text
  pub stock_item_id : Text
  pub batch_id : Option Text
  pub quantity : Quantity
  pub unit_cost : Option Money

-- `RestoreSaleReturnProps`
pub record ReturnProps : Type 0 where
  pub id : Text
  pub sale_id : Text
  pub sale_event_id : Text
  pub original_document_id : Text
  pub credit_note_id : Text
  pub shift_id : Text
  pub refund : Money
  pub payment_method_code : Text
  pub reason : Text
  pub actor_id : Text
  pub terminal_id : Text
  pub origin_node_id : Text
  pub occurred_at : Date
  pub lines : List ReturnLine

-- `SaleReturnEvent`, whose payload is taken from the fields of the return.
pub record ReturnEvent : Type 0 where
  pub event_id : Text
  pub aggregate_id : Text
  pub aggregate_version : ℕ
  pub occurred_at : Date
  pub payload : ReturnProps
  pub line_count : ℕ

-- The constructor's fields are those of the props.
pub record SaleReturn : Type 0 where
  pub fields : ReturnProps
  pub events : List ReturnEvent

abbrev or_blank : Option Text → Text
or_blank none = []
or_blank (some t) = t

abbrev amount_of : Option Money → Text
amount_of none = []
amount_of (some c) = show_ℤ c.minor_units

abbrev currency_of : Option Money → Text
currency_of none = []
currency_of (some c) = c.currency

-- `lineKey`
unfoldable pub return_line_key : ReturnLine → Text
return_line_key l =
    l.sale_item_id
    ++ b':' ∷ or_blank l.batch_id
    ++ b':' ∷ amount_of l.unit_cost
    ++ b':' ∷ currency_of l.unit_cost

-- What `build` makes of a line, after the keys of those before it.
unfoldable pub build_line : List Text → ReturnLine → Result ReturnLine
unfolding return_line_key
build_line seen l = do
  sale_item_id ← require_text l.sale_item_id sale_return_sale_item_required
  throw_if (any (eqb (return_line_key (record l { sale_item_id = sale_item_id }))) seen)
      sale_return_line_duplicated
  throw_if (leb_ℤ l.quantity.scaled_value (pos 0)) sale_return_quantity_invalid
  ok (record l { sale_item_id = sale_item_id })

-- The lines of `build`.
unfoldable pub build_lines : List Text → List ReturnLine → Result (List ReturnLine)
unfolding build_line set_add
build_lines seen [] = ok []
build_lines seen (l ∷ ls) = do
  x ← build_line seen l
  xs ← build_lines (set_add (return_line_key x) seen) ls
  ok (x ∷ xs)

-- The first texts that `build` hands to the constructor.
unfoldable pub required_ids : ReturnProps → Result ReturnProps
required_ids p = do
  id ← require_text p.id sale_return_id_required
  sale_id ← require_text p.sale_id sale_return_sale_required
  document ← require_text p.original_document_id sale_return_document_required
  credit_note ← require_text p.credit_note_id sale_return_credit_note_required
  shift ← require_text p.shift_id sale_return_shift_required
  ok (record p {
    id = id;
    sale_id = sale_id;
    sale_event_id = trim p.sale_event_id;
    original_document_id = document;
    credit_note_id = credit_note;
    shift_id = shift;
  })

-- The texts after them.
unfoldable pub required_names : ReturnProps → Result ReturnProps
required_names p = do
  method ← require_text p.payment_method_code sale_return_payment_method_required
  reason ← require_text p.reason sale_return_reason_required
  actor ← require_text p.actor_id sale_return_actor_required
  terminal ← require_text p.terminal_id sale_return_terminal_required
  node ← require_text p.origin_node_id sale_return_node_required
  ok (record p {
    payment_method_code = method;
    reason = reason;
    actor_id = actor;
    terminal_id = terminal;
    origin_node_id = node;
  })

-- `SaleReturn.build`
unfoldable pub build_return : ReturnProps → Result ReturnProps
unfolding build_lines required_ids required_names
build_return p = do
  throw_if (is_empty p.lines) sale_return_lines_required
  throw_if (leb_ℤ p.refund.minor_units (pos 0)) sale_return_refund_invalid
  throw_if (is_invalid p.occurred_at) sale_return_timestamp_invalid
  lines ← build_lines [] p.lines
  q ← required_ids p
  required_names (record q { lines = lines })

-- `SaleReturn.register`
unfoldable pub register_return : Text → ReturnProps → Result SaleReturn
unfolding build_return
register_return event_id p = do
  require_text p.sale_event_id sale_return_sale_event_required
  built ← build_return p
  event ← require_text event_id sale_return_event_id_required
  ok (record {
    fields = built;
    events =
        record {
          event_id = event;
          aggregate_id = built.id;
          aggregate_version = 1;
          occurred_at = built.occurred_at;
          payload = built;
          line_count = length built.lines;
        }
        ∷ [];
  })

-- `SaleReturn.restore`
unfoldable pub restore_return : ReturnProps → Result SaleReturn
unfolding build_return
restore_return p = do built ← build_return p; ok (record { fields = built; events = [] })
