-- ===== src/Sales/Item/Amounts.antt =====
-- What a discount takes from an item.
use cullen.Prelude.{ℕ, ◌≡◌, ◌≤◌, ◌-◌, refl, subst, ap, sym, ◌∙◌, not, some, arith, ltb}
use cullen.Prelude.Int.{ℤ, pos, negsuc, ◌≤ℤ◌, ◌-ℤ◌}
use cullen.Prelude.Text.{eqb_refl}
use cullen.Shared.Errors.{sale_item_discount_already_applied, sale_discount_invalid_percentage}
use cullen.Shared.Result.{ok, err, >>=-eq-ok, ok_injective, throw_if, require_text}
use cullen.Shared.Money.{Money, apply_percentage, subtract, from_minor_units}
use cullen.Shared.Money.Laws.{IsValid, Within, apply_percentage_bounds}
use cullen.Sales.Item.{
  SaleItem, Discount, create_discount, gross_amount, discount_amount, taxable_amount,
  apply_discount, is_none,
}

create_discount-amount : (p d : Discount) → create_discount p ≡ ok d → d.amount ≡ p.amount
unfolding create_discount require_text
create_discount-amount p d h = ground (arith, h)

-- What a successful `apply_discount` gives.
apply_discount-ok :
    (props : Discount) (item : SaleItem) (r : Discount × SaleItem)
    → apply_discount props item ≡ ok r
    → (gross : Money) × (gross_amount item ≡ ok gross)
      × (apply_percentage gross props.percentage ≡ ok r.0.amount)
      × (props.percentage.basis_points ≤ 10000)
      × (r.1 ≡ record item { discount = some r.0 })
unfolding apply_discount create_discount
apply_discount-ok props item r h =
    let (_, _, h1) =
      >>=-eq-ok (throw_if (not (is_none item.discount)) sale_item_discount_already_applied) _ h in
    let (_, le, h2) =
      >>=-eq-ok
        (throw_if (ltb 10000 props.percentage.basis_points) sale_discount_invalid_percentage) _
        h1 in
    let (gross, f, h3) = >>=-eq-ok (gross_amount item) _ h2 in
    let (amount, g, h4) = >>=-eq-ok (apply_percentage gross props.percentage) _ h3 in
    let (d, c, h5) = >>=-eq-ok (create_discount (record props { amount = amount })) _ h4 in
    let same : (d, record item { discount = some d }) ≡ r = ok_injective h5 in
    let kept : d.amount ≡ amount = create_discount-amount (record props { amount = amount }) d c in
    (
      gross,
      f,
      g ∙ ap ok (sym kept ∙ ap (λ x. x.0.amount) same),
      ground (arith, le),
      sym (ap (λ x. x.1) same) ∙ ap (λ x. record item { discount = some x.0 }) same,
    )

difference :
    (a b : ℤ) → pos 0 ≤ℤ a → pos 0 ≤ℤ b → b ≤ℤ a → (c : ℕ) × (a -ℤ b ≡ pos c) × (pos c ≤ℤ a)
unfolding ◌-ℤ◌
difference (pos a) (pos b) h g le = (a - b, ground arith, omega arith)
difference (pos a) (negsuc b) h g le = absurd (omega arith)
difference (negsuc a) b h g le = absurd (omega arith)

subtract-Within :
    (m n : Money) → IsValid m → pos 0 ≤ℤ m.minor_units → Within m (ok n) → Within m (subtract m n)
unfolding subtract from_minor_units
subtract-Within m n v h w =
    let (c, e, le) = difference m.minor_units n.minor_units h w.0 w.1 in
    ground (arith, e, le, v.safe, v.coded, w.2, eqb_refl m.currency)

discounted_taxable_amount :
    (item : SaleItem) (d : Discount) (gross : Money)
    → gross_amount item ≡ ok gross
    → taxable_amount (record item { discount = some d }) ≡ subtract gross d.amount
unfolding taxable_amount discount_amount gross_amount
discounted_taxable_amount item d gross h = ground (arith, h)

-- A discount on an item whose gross amount is valid and not negative takes between nothing and the
-- gross amount, whatever amount it was asked for: what is left to tax is computed without an error, is
-- not negative and is at most the gross amount. The item then refuses every other discount.
pub discount_bounds :
    (props next : Discount) (item : SaleItem) (gross : Money) (r : Discount × SaleItem)
    → gross_amount item ≡ ok gross
    → IsValid gross
    → pos 0 ≤ℤ gross.minor_units
    → apply_discount props item ≡ ok r
    → Within gross (ok r.0.amount)
      × Within gross (taxable_amount r.1)
      × (apply_discount next r.1 ≡ err sale_item_discount_already_applied)
unfolding apply_discount
discount_bounds props next item gross r e v h ok_r =
    let (gross', f, g, le, same) = apply_discount-ok props item r ok_r in
    let q : gross' ≡ gross = ok_injective (sym f ∙ e) in
    let g' : apply_percentage gross props.percentage ≡ ok r.0.amount =
      subst (λ m. apply_percentage m props.percentage ≡ ok r.0.amount) q g in
    let w : Within gross (ok r.0.amount) =
      subst (Within gross) g' (apply_percentage_bounds gross props.percentage v h le) in
    (
      w,
      subst (Within gross)
          (sym (ap taxable_amount same ∙ discounted_taxable_amount item r.0 gross e))
          (subtract-Within gross r.0.amount v h w),
      subst (λ i. apply_discount next i ≡ err sale_item_discount_already_applied) (sym same) refl,
    )
