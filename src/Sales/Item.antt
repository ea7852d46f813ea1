-- ===== src/Sales/Item.antt =====
-- packages/core/src/domain/sales/sale-item.ts and discount.ts.
pub mod Amounts
use cullen.Prelude.{ℕ, Bool, true, false, not, Option, none, some, ltb, ◌==◌, if◌then◌else◌}
use cullen.Prelude.Int.{ℤ, pos, leb_ℤ, ltb_ℤ}
use cullen.Prelude.Text.{Text, trim, Date}
use cullen.Shared.Errors.{
  sale_item_invalid_quantity, sale_item_quantity_scale_mismatch, sale_discount_reason_required,
  sale_discount_invalid_percentage, sale_discount_invalid_amount,
  sale_item_discount_already_applied,
}
use cullen.Shared.Result.{Result, ok, err, ◌>>=◌, ◌>>◌, throw_if, require_text}
use cullen.Shared.Quantity.{Quantity, Percentage}
use cullen.Shared.Money.{Money, zero_money, add, subtract, multiply_by_quantity, apply_percentage}
use cullen.Shared.TaxRate.{apply_to}
use cullen.Sales.Product.{ProductSnapshot}

-- `Discount`, and `DiscountProps` before its reason is trimmed.
pub record Discount : Type 0 where
  pub id : Text
  pub line_item_id : Text
  pub percentage : Percentage
  pub amount : Money
  pub reason : Text
  pub applied_by : Text
  pub applied_at : Date

-- `Discount.create`
unfoldable pub create_discount : Discount → Result Discount
create_discount props = do
  reason ← require_text props.reason sale_discount_reason_required
  throw_if (ltb 10000 props.percentage.basis_points) sale_discount_invalid_percentage
  throw_if (ltb_ℤ props.amount.minor_units (pos 0)) sale_discount_invalid_amount
  ok (record props { reason = reason })

pub record SaleItem : Type 0 where
  pub id : Text
  pub snapshot : ProductSnapshot
  pub quantity : Quantity
  pub discount : Option Discount

-- `SaleItem.create`
unfoldable pub create_item : Text → ProductSnapshot → Quantity → Result SaleItem
create_item id snapshot quantity = do
  throw_if (leb_ℤ quantity.scaled_value (pos 0)) sale_item_invalid_quantity
  throw_if (not (quantity.scale == snapshot.unit_scale)) sale_item_quantity_scale_mismatch
  ok (record { id = id; snapshot = snapshot; quantity = quantity; discount = none })

-- `SaleItem.restore`
unfoldable pub restore_item : Text → ProductSnapshot → Quantity → Option Discount → Result SaleItem
unfolding create_item
restore_item id snapshot quantity discount = do
  item ← create_item id snapshot quantity
  ok (record item { discount = discount })

-- `grossAmount`
unfoldable pub gross_amount : SaleItem → Result Money
gross_amount item = multiply_by_quantity item.snapshot.price item.quantity

abbrev amount_of : Option Discount → Text → Result Money
amount_of none currency = zero_money currency
amount_of (some d) currency = ok d.amount

-- `discountAmount`
unfoldable pub discount_amount : SaleItem → Result Money
discount_amount item = amount_of item.discount item.snapshot.price.currency

-- `taxableAmount`
unfoldable pub taxable_amount : SaleItem → Result Money
taxable_amount item = do
  gross ← gross_amount item
  discount ← discount_amount item
  subtract gross discount

-- `taxAmount`
unfoldable pub tax_amount : SaleItem → Result Money
tax_amount item = do taxable ← taxable_amount item; apply_to item.snapshot.tax_rate taxable

-- `total`
unfoldable pub item_total : SaleItem → Result Money
item_total item = do taxable ← taxable_amount item; tax ← tax_amount item; add taxable tax

abbrev pub is_none : Option Discount → Bool
is_none none = true
is_none (some d) = false

-- `applyDiscount`: the discount, and the item that has it. The amount in the properties is ignored.
unfoldable pub apply_discount : Discount → SaleItem → Result (Discount × SaleItem)
unfolding create_discount
apply_discount props item = do
  throw_if (not (is_none item.discount)) sale_item_discount_already_applied
  throw_if (ltb 10000 props.percentage.basis_points) sale_discount_invalid_percentage
  gross ← gross_amount item
  amount ← apply_percentage gross props.percentage
  discount ← create_discount (record props { amount = amount })
  ok (discount, record item { discount = some discount })
