-- ===== src/Tests/Values.antt =====
-- Values that the examples share.
use cullen.Prelude.{ℕ, true}
use cullen.Prelude.Int.{pos}
use cullen.Prelude.Text.{Text, codes, Date, instant}
use cullen.Shared.Quantity.{Quantity, Percentage}
use cullen.Shared.Money.{Money}
use cullen.Shared.TaxRate.{TaxRate}
use cullen.Currency.PaymentMethod.{PaymentMethod, cash}

abbrev pub usd : Text
usd = codes "USD"

abbrev pub ves : Text
ves = codes "VES"

abbrev pub dollars : ℕ → Money
dollars n = record { minor_units = pos n; currency = usd }

abbrev pub bolivars : ℕ → Money
bolivars n = record { minor_units = pos n; currency = ves }

abbrev pub sixteen_percent : Percentage
sixteen_percent = record { basis_points = 1600 }

abbrev pub iva : TaxRate
iva = record { percentage = sixteen_percent }

abbrev pub pieces : ℕ → Quantity
pieces n = record { scaled_value = pos n; scale = 0 }

abbrev pub cash_usd : PaymentMethod
cash_usd = record {
  code = codes "CASH_USD";
  name = codes "Cash";
  kind = cash;
  currency_code = usd;
  is_active = true;
}

abbrev pub monday : Date
monday = instant (pos 1000)

abbrev pub tuesday : Date
tuesday = instant (pos 2000)
