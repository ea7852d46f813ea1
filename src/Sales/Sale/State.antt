-- ===== src/Sales/Sale/State.antt =====
-- sale.ts and sale-events.ts: the fields of `Sale`, its statuses and its events.
use cullen.Prelude.{ℕ, Bool, Option, List}
use cullen.Prelude.Int.{ℤ}
use cullen.Prelude.Text.{Text, Date}
use cullen.Shared.Quantity.{Quantity}
use cullen.Shared.Money.{Money}
use cullen.Sales.Product.{CostSnapshot}
use cullen.Sales.Item.{SaleItem}
use cullen.Sales.Payment.{Payment}

-- `SaleStatus`
pub data SaleStatus : Type 0 where
  draft completed voided : SaleStatus

-- `SaleRecipientSnapshot`
pub record SaleRecipient : Type 0 where
  pub country : Text
  pub type : Text
  pub value : Text
  pub normalized_value : Text
  pub name : Option Text
  pub address : Option Text

-- The payment of a `SaleCompletedEvent`.
pub record PaidWith : Type 0 where
  pub payment_id : Text
  pub method_code : Text
  pub currency_code : Text
  pub amount_minor_units : ℤ

-- The item of a `SaleCompletedEvent`.
pub record SoldItem : Type 0 where
  pub item_id : Text
  pub product_id : Text
  pub quantity_scaled : ℤ
  pub quantity_scale : ℕ
  pub cost_snapshot : Option CostSnapshot

-- The type and the payload of a `SaleDomainEvent`.
pub data SaleEventBody : Type 0 where
  sale_started : Text → Text → Text → Text → SaleEventBody
  item_added : Text → Text → Quantity → SaleEventBody
  item_removed : Text → SaleEventBody
  discount_applied : Text → Text → Money → ℕ → SaleEventBody
  payment_registered : Text → Money → Text → SaleEventBody
  sale_completed : Text → Text → Money → Money → List PaidWith → List SoldItem → SaleEventBody
  sale_voided : Text → Text → SaleEventBody
  recipient_changed : Bool → Option Text → Option Text → SaleEventBody

pub record SaleEvent : Type 0 where
  pub body : SaleEventBody
  pub event_id : Text
  pub aggregate_id : Text
  pub aggregate_version : ℕ
  pub occurred_at : Date

pub record Sale : Type 0 where
  pub id : Text
  pub shift_id : Text
  pub currency_code : Text
  pub terminal_id : Text
  pub origin_node_id : Text
  pub started_by : Text
  pub started_at : Date
  pub status : SaleStatus
  pub version : ℕ
  pub items : List SaleItem
  pub payments : List Payment
  pub financial_transaction_tax : Money
  pub completed_at : Option Date
  pub voided_at : Option Date
  pub void_reason : Option Text
  pub voided_by : Option Text
  pub recipient : Option SaleRecipient
  pub events : List SaleEvent
