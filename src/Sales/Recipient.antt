-- ===== src/Sales/Recipient.antt =====
-- packages/core/src/domain/sales/sale-recipient.ts: the recipient that a sale captures.
use cullen.Prelude.{
  ℕ, ◌≡◌, subst, Bool, true, false, not, ◌&&◌, ◌||◌, Option, none, some, List, [], ◌∷◌, is_empty,
  leb, ◌==◌, arith, if◌then◌else◌,
}
use cullen.Prelude.Text.{Text, codes, eqb, eqb→eq, trim, is_space}
use cullen.Shared.Errors.{
  sale_recipient_country_invalid, sale_recipient_type_invalid,
  sale_recipient_identification_required, sale_recipient_identification_invalid,
}
use cullen.Shared.Result.{Result, ok, ◌>>◌, throw_if, >>=-eq-ok, ok_injective}
use cullen.Sales.Sale.{SaleRecipient}

-- `SaleRecipientInput`
pub record RecipientInput : Type 0 where
  pub country : Text
  pub type : Option Text
  pub value : Text
  pub name : Option Text
  pub address : Option Text

-- `saleRecipientTypeFor`
unfoldable pub recipient_type_for : Text → Text
recipient_type_for country = if eqb country (codes "VE") then codes "RIF" else codes "TAX_ID"

-- `optionalText`
unfoldable pub optional_text : Option Text → Option Text
optional_text none = none
optional_text (some t) = if is_empty (trim t) then none else some (trim t)

abbrev is_letter : ℕ → Bool
is_letter c = leb b'A' c && leb c b'Z'

abbrev is_two_letters : Text → Bool
is_two_letters [] = false
is_two_letters (a ∷ []) = false
is_two_letters (a ∷ b ∷ []) = is_letter a && is_letter b
is_two_letters (a ∷ b ∷ c ∷ s) = false

abbrev is_prefix_letter : ℕ → Bool
is_prefix_letter c = c == b'V' || c == b'E' || c == b'J' || c == b'P' || c == b'G' || c == b'C'

-- Whether a text is this many digits.
abbrev are_digits : List (Unit {0}) → Text → Bool
are_digits [] [] = true
are_digits [] (c ∷ s) = false
are_digits (u ∷ us) [] = false
are_digits (u ∷ us) (c ∷ s) = leb b'0' c && leb c b'9' && are_digits us s

-- `VE_RIF_PATTERN`, /^[VEJPGC][0-9]{9}$/
unfoldable pub is_rif : Text → Bool
is_rif [] = false
is_rif (c ∷ s) =
    is_prefix_letter c && are_digits (tt ∷ tt ∷ tt ∷ tt ∷ tt ∷ tt ∷ tt ∷ tt ∷ tt ∷ []) s

-- `replace` of each character that passes a test by nothing
unfoldable pub remove : (ℕ → Bool) → Text → Text
remove p [] = []
remove p (c ∷ s) = let rest = remove p s in if p c then rest else c ∷ rest

-- The characters of /[\s.-]/
abbrev pub is_separator : ℕ → Bool
is_separator c = is_space c || c == b'.' || c == b'-'

abbrev or_default : Text → Option Text → Text
or_default d none = d
or_default d (some t) = t

-- `String.prototype.toUpperCase` and `normalize('NFKC')`, whose Unicode tables the model does not hold.
module _ (to_upper nfkc : Text → Text) where
  -- `createSaleRecipientSnapshot`
  unfoldable pub create_recipient : RecipientInput → Result SaleRecipient
  unfolding recipient_type_for optional_text remove is_rif
  create_recipient input = do
    let country = to_upper (trim input.country)
    let value = trim input.value
    throw_if (not (is_two_letters country)) sale_recipient_country_invalid
    let type = to_upper (trim (or_default (recipient_type_for country) input.type))
    throw_if (not (eqb type (recipient_type_for country))) sale_recipient_type_invalid
    throw_if (is_empty value) sale_recipient_identification_required
    let canonical = to_upper (nfkc value)
    let venezuelan = eqb country (codes "VE")
    let normalized = if venezuelan then remove is_separator canonical else remove is_space canonical
    throw_if (venezuelan && not (is_rif normalized)) sale_recipient_identification_invalid
    ok (record {
      country = country;
      type = type;
      value = value;
      normalized_value = normalized;
      name = optional_text input.name;
      address = optional_text input.address;
    })

  -- A recipient that is accepted has the type of its country, and if it is Venezuelan its canonical
  -- identification is a supported letter and nine digits.
  recipient_canonical :
      (input : RecipientInput) (r : SaleRecipient)
      → create_recipient input ≡ ok r
      → (r.type ≡ recipient_type_for r.country)
        × (eqb r.country (codes "VE") ≡ true → is_rif r.normalized_value ≡ true)
  unfolding create_recipient
  recipient_canonical input r h =
      let country = to_upper (trim input.country) in
      let type = to_upper (trim (or_default (recipient_type_for country) input.type)) in
      let canonical = to_upper (nfkc (trim input.value)) in
      let venezuelan = eqb country (codes "VE") in
      let normalized =
        if venezuelan then remove is_separator canonical else remove is_space canonical in
      let (_, _, h1) =
        >>=-eq-ok (throw_if (not (is_two_letters country)) sale_recipient_country_invalid) _ h in
      let (_, t, h2) =
        >>=-eq-ok
          (throw_if (not (eqb type (recipient_type_for country))) sale_recipient_type_invalid) _
          h1 in
      let (_, _, h3) =
        >>=-eq-ok (throw_if (is_empty (trim input.value)) sale_recipient_identification_required) _
          h2 in
      let (_, v, h4) =
        >>=-eq-ok
          (throw_if (venezuelan && not (is_rif normalized)) sale_recipient_identification_invalid) _
          h3 in
      subst
        (λ z.
          (z.type ≡ recipient_type_for z.country)
          × (eqb z.country (codes "VE") ≡ true → is_rif z.normalized_value ≡ true))
        (ok_injective h4)
        (eqb→eq type (recipient_type_for country) (ground (arith, t)), λ e. ground (arith, v, e))
