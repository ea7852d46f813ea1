-- ===== src/Currency/PaymentMethod.antt =====
-- packages/core/src/domain/currency/payment-method.ts.
use cullen.Prelude.{
  ℕ, Bool, true, false, not, ◌&&◌, ◌||◌, Option, none, some, [], ◌∷◌, leb, ◌==◌, is_empty,
}
use cullen.Prelude.Text.{Text}
use cullen.Shared.Errors.{
  payment_method_invalid_code, payment_method_name_required, payment_method_invalid_currency,
}
use cullen.Shared.Result.{Result, ok, ◌>>=◌, ◌>>◌, throw_if, require_text}
use cullen.Shared.Money.{is_currency_code}

-- `PaymentMethodKind`; the check that a kind is one of these is the type's here.
pub data PaymentMethodKind : Type 0 where
  cash card mobile_payment bank_transfer other : PaymentMethodKind

pub record PaymentMethod : Type 0 where
  pub code : Text
  pub name : Text
  pub kind : PaymentMethodKind
  pub currency_code : Text
  pub is_active : Bool

abbrev is_code_unit : ℕ → Bool
is_code_unit c = (leb b'A' c && leb c b'Z') || (leb b'0' c && leb c b'9') || c == b'_'

abbrev all_code_units : Text → Bool
all_code_units [] = true
all_code_units (c ∷ s) = is_code_unit c && all_code_units s

-- /^[A-Z0-9_]+$/
unfoldable pub is_method_code : Text → Bool
is_method_code s = not (is_empty s) && all_code_units s

-- `props.isActive ?? true`
abbrev pub active_or_true : Option Bool → Bool
active_or_true none = true
active_or_true (some b) = b

-- `PaymentMethod.create`
unfoldable pub create : Text → Text → PaymentMethodKind → Text → Option Bool → Result PaymentMethod
create code name kind currency_code is_active = do
  throw_if (not (is_method_code code)) payment_method_invalid_code
  trimmed_name ← require_text name payment_method_name_required
  throw_if (not (is_currency_code currency_code)) payment_method_invalid_currency
  ok (record {
    code = code;
    name = trimmed_name;
    kind = kind;
    currency_code = currency_code;
    is_active = active_or_true is_active;
  })

-- `method.kind !== 'CASH'`
abbrev pub is_cash : PaymentMethodKind → Bool
is_cash k = elim k [ cash ↦ true | _ ↦ false ]
