-- ===== src/Purchasing/Receipt/State.antt =====
-- purchase-receipt.ts: the fields of `PurchaseReceipt`.
use cullen.Prelude.{ℕ, Bool, Option, List}
use cullen.Prelude.Text.{Text, Date}
use cullen.Shared.Money.{Money}
use cullen.Shared.Quantity.{Quantity}
use cullen.Currency.ExchangeRate.{ExchangeRate}

-- `PurchaseReceiptStatus`
pub data ReceiptStatus : Type 0 where
  receipt_draft receipt_completed receipt_reversed : ReceiptStatus

-- The type of a `PurchaseSourceDocument`.
pub data SourceType : Type 0 where
  invoice delivery_note : SourceType

-- `PurchaseSourceDocument`
pub record SourceDocument : Type 0 where
  pub type : SourceType
  pub number : Text
  pub series : Option Text
  pub control_number : Option Text
  pub issued_at : Option Date

-- `TaxIdentity`
pub record TaxIdentity : Type 0 where
  pub country : Text
  pub type : Text
  pub value : Text
  pub normalized_value : Text

-- `FiscalAddress`
pub record FiscalAddress : Type 0 where
  pub country_code : Text
  pub address_line : Text

-- `PurchaseSupplierSnapshot`
pub record SupplierSnapshot : Type 0 where
  pub legal_name : Text
  pub trade_name : Option Text
  pub tax_identity : TaxIdentity
  pub fiscal_address : Option FiscalAddress

-- `PurchaseReceiptLine`
pub record ReceiptLine : Type 0 where
  pub id : Text
  pub product_id : Text
  pub stock_item_id : Text
  pub unit_code : Text
  pub tracks_batches : Bool
  pub quantity : Quantity
  pub batch_id : Option Text
  pub batch_lot_number : Option Text
  pub batch_expires_at : Option Date
  pub purchase_unit_cost : Money
  pub valuation_unit_cost : Money
  pub exchange_rate : Option ExchangeRate

-- `StartPurchaseReceiptProps`
pub record StartReceiptProps : Type 0 where
  pub id : Text
  pub supplier_id : Text
  pub supplier_snapshot : SupplierSnapshot
  pub source_document : SourceDocument
  pub effective_at : Date
  pub created_by : Text
  pub origin_node_id : Text
  pub created_at : Date
  pub replaces_receipt_id : Option Text
  pub lines : List ReceiptLine

-- The type and the payload of a `PurchaseReceiptEvent`; the payload of a completed receipt takes what it
-- says of the lines from them.
pub data ReceiptEventBody : Type 0 where
  receipt_is_completed :
      Text → SourceType → Text → Text → Text → ℕ → List ReceiptLine → ReceiptEventBody
  receipt_is_reversed : Text → Text → ReceiptEventBody

-- `PurchaseReceiptEvent`
pub record ReceiptEvent : Type 0 where
  pub body : ReceiptEventBody
  pub event_id : Text
  pub aggregate_id : Text
  pub aggregate_version : ℕ
  pub occurred_at : Date

-- The constructor's fields are those of the props.
pub record PurchaseReceipt : Type 0 where
  pub props : StartReceiptProps
  pub status : ReceiptStatus
  pub version : ℕ
  pub completed_at : Option Date
  pub reversed_at : Option Date
  pub reversed_by : Option Text
  pub reversal_reason : Option Text
  pub events : List ReceiptEvent
