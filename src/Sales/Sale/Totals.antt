-- ===== src/Sales/Sale/Totals.antt =====
-- sale.ts: the getters that add amounts up.
use cullen.Prelude.{List, [], ◌∷◌}
use cullen.Shared.Result.{Result, ok, ◌>>=◌}
use cullen.Shared.Money.{Money, zero_money, add, subtract}
use cullen.Sales.Item.{SaleItem, gross_amount, discount_amount, taxable_amount, tax_amount}
use cullen.Sales.Payment.{Payment}
use cullen.Sales.Sale.State.{Sale}

-- `reduce((total, x) => total.add(f(x)), total)`
unfoldable pub reduce_add : {A : Type 0} → (A → Result Money) → Money → List A → Result Money
reduce_add f total [] = ok total
reduce_add f total (x ∷ xs) = do amount ← f x; total' ← add total amount; reduce_add f total' xs

-- `Sale.sum`
unfoldable pub sum : (SaleItem → Result Money) → Sale → Result Money
sum selector sale = do zero ← zero_money sale.currency_code; reduce_add selector zero sale.items

-- `subtotal`
unfoldable pub subtotal : Sale → Result Money
subtotal sale = sum gross_amount sale

-- `discountTotal`
unfoldable pub discount_total : Sale → Result Money
discount_total sale = sum discount_amount sale

-- `taxableBase`
unfoldable pub taxable_base : Sale → Result Money
taxable_base sale = sum taxable_amount sale

-- `taxTotal`
unfoldable pub tax_total : Sale → Result Money
tax_total sale = sum tax_amount sale

-- `commercialTotal`
unfoldable pub commercial_total : Sale → Result Money
commercial_total sale = do base ← taxable_base sale; tax ← tax_total sale; add base tax

-- `total`
unfoldable pub total : Sale → Result Money
total sale = do commercial ← commercial_total sale; add commercial sale.financial_transaction_tax

-- The selector of `paidTotal`.
abbrev pub amount_paid : Payment → Result Money
amount_paid p = ok p.amount_in_sale_currency

-- `paidTotal`
unfoldable pub paid_total : Sale → Result Money
paid_total sale = do zero ← zero_money sale.currency_code; reduce_add amount_paid zero sale.payments

-- `balance`
unfoldable pub balance : Sale → Result Money
balance sale = do t ← total sale; paid ← paid_total sale; subtract t paid
