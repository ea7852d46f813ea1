-- ===== src/Sales/Sale/Start.antt =====
-- sale.ts: `Sale.start` and `Sale.restore`.
use cullen.Prelude.{ℕ, Option, none, List, [], ◌∷◌}
use cullen.Prelude.Text.{Text, Date}
use cullen.Shared.Errors.{sale_shift_required}
use cullen.Shared.Result.{Result, ok, ◌>>=◌, require_text}
use cullen.Shared.Money.{Money, zero_money}
use cullen.Sales.Item.{SaleItem}
use cullen.Sales.Payment.{Payment}
use cullen.Sales.Sale.State.{Sale, SaleStatus, draft, SaleRecipient, sale_started}

-- `StartSaleProps`
pub record StartProps : Type 0 where
  pub id : Text
  pub shift_id : Text
  pub currency_code : Text
  pub terminal_id : Text
  pub origin_node_id : Text
  pub started_by : Text
  pub started_at : Date
  pub event_id : Text

-- `Sale.start`
unfoldable pub start : StartProps → Result Sale
start props = do
  shift_id ← require_text props.shift_id sale_shift_required
  zero ← zero_money props.currency_code
  ok (record {
    id = props.id;
    shift_id = shift_id;
    currency_code = zero.currency;
    terminal_id = props.terminal_id;
    origin_node_id = props.origin_node_id;
    started_by = props.started_by;
    started_at = props.started_at;
    status = draft;
    version = 1;
    items = [];
    payments = [];
    financial_transaction_tax = zero;
    completed_at = none;
    voided_at = none;
    void_reason = none;
    voided_by = none;
    recipient = none;
    events =
        record {
          body = sale_started shift_id zero.currency props.terminal_id props.origin_node_id;
          event_id = props.event_id;
          aggregate_id = props.id;
          aggregate_version = 1;
          occurred_at = props.started_at;
        }
        ∷ [];
  })

-- `RestoredSaleProps`, less the fields that `Sale.start` takes.
pub record RestoredState : Type 0 where
  pub status : SaleStatus
  pub version : ℕ
  pub items : List SaleItem
  pub payments : List Payment
  pub financial_transaction_tax : Money
  pub completed_at : Option Date
  pub voided_at : Option Date
  pub void_reason : Option Text
  pub voided_by : Option Text
  pub recipient : Option SaleRecipient

-- `Sale.restore`; the event identity that it starts with is dropped with the event.
unfoldable pub restore : StartProps → RestoredState → Result Sale
unfolding start
restore props stored = do
  sale ← start props
  ok (record sale {
    status = stored.status;
    version = stored.version;
    items = stored.items;
    payments = stored.payments;
    financial_transaction_tax = stored.financial_transaction_tax;
    completed_at = stored.completed_at;
    voided_at = stored.voided_at;
    void_reason = stored.void_reason;
    voided_by = stored.voided_by;
    recipient = stored.recipient;
    events = [];
  })
