-- ===== src/Fiscal/Content.antt =====
-- fiscal-types.ts and `FiscalDocument.validateContent` of fiscal-document.ts: what a document says.
pub mod Totals
use cullen.Prelude.{
  ℕ, ◌+◌, ◌≡◌, Bool, true, false, not, ◌&&◌, ◌||◌, Option, none, some, List, [], ◌∷◌, leb, ltb,
  is_empty, if◌then◌else◌,
}
use cullen.Prelude.Int.{ℤ, pos, negsuc, ◌+ℤ◌, ltb_ℤ, leb_ℤ, eqb_ℤ}
use cullen.Prelude.Text.{Text, trim, Number, integer, not_integer, is_safe_integer}
use cullen.Shared.Errors.{
  DomainError, fiscal_reference_required, fiscal_currency_invalid, fiscal_document_content_invalid,
  fiscal_line_id_required, fiscal_line_description_required, fiscal_line_invalid,
  fiscal_recipient_type_required, fiscal_recipient_identification_required,
  fiscal_payment_method_required, fiscal_payment_invalid, fiscal_totals_inconsistent,
}
use cullen.Shared.Result.{Result, ok, err, ◌>>=◌, ◌>>◌, throw_if, require_text, for_each}

-- `FiscalDocumentType`
pub data DocumentType : Type 0 where
  invoice credit_note : DocumentType

-- `FiscalDocumentLine`. An amount that the code only adds up once it is known to be an integer is
-- a `Number` here; sums of them are taken over `integer_value`.
pub record Line : Type 0 where
  pub id : Text
  pub description : Text
  pub quantity_scaled : Number
  pub quantity_scale : Number
  pub unit_price_minor_units : Number
  pub tax_rate_basis_points : Number
  pub total_minor_units : Number

-- `FiscalDocumentPayment`
pub record DocumentPayment : Type 0 where
  pub method_code : Text
  pub amount_minor_units : Number

-- `FiscalDocumentRecipient`
pub record Recipient : Type 0 where
  pub country : Text
  pub type : Text
  pub value : Text
  pub normalized_value : Text
  pub name : Option Text
  pub address : Option Text

-- `FiscalDocumentContent`
pub record Content : Type 0 where
  pub reference_id : Text
  pub type : DocumentType
  pub currency_code : Text
  pub lines : List Line
  pub payments : List DocumentPayment
  pub total_minor_units : Number
  pub recipient : Option Recipient

-- The integer that a number is; any other number fails the checks before it is added.
abbrev pub integer_value : Number → ℤ
integer_value (integer z) = z
integer_value not_integer = pos 0

-- `Number.isSafeInteger(n) && low <= n`
abbrev pub is_safe_from : ℤ → Number → Bool
is_safe_from low n = is_safe_integer n && leb_ℤ low (integer_value n)

-- `Number.isInteger(n) && 0 <= n && n <= high`
abbrev is_integer_upto : ℕ → Number → Bool
is_integer_upto high (integer z) = leb_ℤ (pos 0) z && leb_ℤ z (pos high)
is_integer_upto high not_integer = false

abbrev is_upper : ℕ → Bool
is_upper c = leb b'A' c && leb c b'Z'

abbrev is_upper_or_digit : ℕ → Bool
is_upper_or_digit c = is_upper c || (leb b'0' c && leb c b'9')

abbrev all : (ℕ → Bool) → Text → Bool
all p [] = true
all p (c ∷ s) = p c && all p s

abbrev size : Text → ℕ
size [] = 0
size (c ∷ s) = 1 + size s

-- /^[A-Z][A-Z0-9]{2,7}$/
unfoldable pub is_fiscal_currency : Text → Bool
is_fiscal_currency [] = false
is_fiscal_currency (c ∷ s) =
    is_upper c && all is_upper_or_digit s && leb 2 (size s) && leb (size s) 7

abbrev check_line : Line → Result (Unit {0})
check_line line = do
  require_text line.id fiscal_line_id_required
  require_text line.description fiscal_line_description_required
  throw_if
      (not (is_safe_from (pos 1) line.quantity_scaled)
        || not (is_integer_upto 6 line.quantity_scale)
        || not (is_safe_from (pos 0) line.unit_price_minor_units)
        || not (is_integer_upto 10000 line.tax_rate_basis_points)
        || not (is_safe_from (pos 0) line.total_minor_units))
      fiscal_line_invalid

abbrev check_recipient : Option Recipient → Result (Unit {0})
check_recipient none = ok tt
check_recipient (some r) = do
  require_text r.type fiscal_recipient_type_required
  require_text r.normalized_value fiscal_recipient_identification_required
  ok tt

abbrev check_payment : DocumentPayment → Result (Unit {0})
check_payment p = do
  require_text p.method_code fiscal_payment_method_required
  throw_if (not (is_safe_from (pos 1) p.amount_minor_units)) fiscal_payment_invalid

abbrev pub line_total : List Line → ℤ → ℤ
line_total [] acc = acc
line_total (l ∷ ls) acc = line_total ls (acc +ℤ integer_value l.total_minor_units)

abbrev pub payment_total : List DocumentPayment → ℤ → ℤ
payment_total [] acc = acc
payment_total (p ∷ ps) acc = payment_total ps (acc +ℤ integer_value p.amount_minor_units)

-- `String.prototype.toUpperCase`, whose Unicode tables the model does not hold.
module _ (to_upper : Text → Text) where
  -- `FiscalDocument.validateContent`
  unfoldable pub validate_content : Content → Result Content
  validate_content content = do
    require_text content.reference_id fiscal_reference_required
    let currency_code = to_upper (trim content.currency_code)
    throw_if (not (is_fiscal_currency currency_code)) fiscal_currency_invalid
    throw_if
        (is_empty content.lines
          || is_empty content.payments
          || not (is_safe_from (pos 1) content.total_minor_units))
        fiscal_document_content_invalid
    for_each check_line content.lines
    check_recipient content.recipient
    for_each check_payment content.payments
    throw_if
        (not (eqb_ℤ (line_total content.lines (pos 0)) (integer_value content.total_minor_units))
          || not (
              eqb_ℤ (payment_total content.payments (pos 0))
                (integer_value content.total_minor_units)))
        fiscal_totals_inconsistent
    ok (record content { currency_code = currency_code })
