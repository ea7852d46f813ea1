-- ===== src/Sales/Return/Restored.antt =====
-- What is restored from a return's own fields.
use cullen.Prelude.{◌≡◌, refl, sym, subst, ◌∙◌, true, false, List, [], ◌∷◌, any, is_empty, arith}
use cullen.Prelude.Int.{pos, leb_ℤ}
use cullen.Prelude.Text.{Text, eqb, is_invalid}
use cullen.Prelude.Text.Trim.{trim_idem}
use cullen.Shared.Errors.{
  sale_return_lines_required, sale_return_refund_invalid, sale_return_timestamp_invalid,
  sale_return_sale_item_required, sale_return_line_duplicated, sale_return_quantity_invalid,
  sale_return_id_required, sale_return_sale_required, sale_return_document_required,
  sale_return_credit_note_required, sale_return_shift_required, sale_return_payment_method_required,
  sale_return_reason_required, sale_return_actor_required, sale_return_terminal_required,
  sale_return_node_required, sale_return_sale_event_required, sale_return_event_id_required,
}
use cullen.Shared.Result.{ok, throw_if, require_text, >>=-eq-ok, ok_injective}
use cullen.Shared.Result.Again.{require_text-again}
use cullen.Inventory.Maps.{set_add}
use cullen.Sales.Return.{
  ReturnLine, ReturnProps, SaleReturn, return_line_key, required_ids, required_names, build_line,
  build_lines, build_return, register_return, restore_return,
}

build_line-again :
    (seen : List Text) (l x : ReturnLine) → build_line seen l ≡ ok x → build_line seen x ≡ ok x
unfolding build_line
build_line-again seen l x h =
    let (item, i, h1) =
      >>=-eq-ok (require_text l.sale_item_id sale_return_sale_item_required) _ h in
    let (_, d, h2) =
      >>=-eq-ok
        (throw_if (any (eqb (return_line_key (record l { sale_item_id = item }))) seen)
          sale_return_line_duplicated)
        _ h1 in
    let (_, q, h3) =
      >>=-eq-ok (throw_if (leb_ℤ l.quantity.scaled_value (pos 0)) sale_return_quantity_invalid) _
        h2 in
    subst (λ z. build_line seen z ≡ ok z) (ok_injective h3)
      (ground
        (arith, d, q, require_text-again l.sale_item_id item sale_return_sale_item_required i))

build_lines-again :
    (ls xs : List ReturnLine) (seen : List Text)
    → build_lines seen ls ≡ ok xs
    → build_lines seen xs ≡ ok xs
unfolding build_lines
build_lines-again [] xs seen h = subst (λ z. build_lines seen z ≡ ok z) (ok_injective h) refl
build_lines-again (l ∷ ls) xs seen h =
    let (y, f, h1) = >>=-eq-ok (build_line seen l) _ h in
    let (ys, g, h2) = >>=-eq-ok (build_lines (set_add (return_line_key y) seen) ls) _ h1 in
    subst (λ z. build_lines seen z ≡ ok z) (ok_injective h2)
      (ground (
        arith,
        build_line-again seen l y f,
        build_lines-again ls ys (set_add (return_line_key y) seen) g,
      ))

build_lines-nonempty :
    (ls xs : List ReturnLine) (seen : List Text)
    → build_lines seen ls ≡ ok xs
    → is_empty xs ≡ is_empty ls
unfolding build_lines
build_lines-nonempty [] xs seen h = subst (λ z. is_empty z ≡ true) (ok_injective h) refl
build_lines-nonempty (l ∷ ls) xs seen h =
    let (y, f, h1) = >>=-eq-ok (build_line seen l) _ h in
    let (ys, g, h2) = >>=-eq-ok (build_lines (set_add (return_line_key y) seen) ls) _ h1 in
    subst (λ z. is_empty z ≡ false) (ok_injective h2) refl

-- The other fields of a return.
abbrev SameRest : ReturnProps → ReturnProps → Type 0
SameRest p q = (p.lines ≡ q.lines) × (p.refund ≡ q.refund) × (p.occurred_at ≡ q.occurred_at)

abbrev SameIds : ReturnProps → ReturnProps → Type 0
SameIds p q =
    (p.id ≡ q.id)
    × (p.sale_id ≡ q.sale_id)
    × (p.sale_event_id ≡ q.sale_event_id)
    × (p.original_document_id ≡ q.original_document_id)
    × (p.credit_note_id ≡ q.credit_note_id)
    × (p.shift_id ≡ q.shift_id)

required_ids-again :
    (p x : ReturnProps) → required_ids p ≡ ok x → (required_ids x ≡ ok x) × SameRest p x
unfolding required_ids
required_ids-again p x h =
    let (id, i, h5) = >>=-eq-ok (require_text p.id sale_return_id_required) _ h in
    let (sale, s, h6) = >>=-eq-ok (require_text p.sale_id sale_return_sale_required) _ h5 in
    let (document, d, h7) =
      >>=-eq-ok (require_text p.original_document_id sale_return_document_required) _ h6 in
    let (note, c, h8) =
      >>=-eq-ok (require_text p.credit_note_id sale_return_credit_note_required) _ h7 in
    let (shift, f, h9) = >>=-eq-ok (require_text p.shift_id sale_return_shift_required) _ h8 in
    subst (λ z. (required_ids z ≡ ok z) × SameRest p z) (ok_injective h9)
      (ground (
        arith,
        trim_idem p.sale_event_id,
        require_text-again p.id id sale_return_id_required i,
        require_text-again p.sale_id sale sale_return_sale_required s,
        require_text-again p.original_document_id document sale_return_document_required d,
        require_text-again p.credit_note_id note sale_return_credit_note_required c,
        require_text-again p.shift_id shift sale_return_shift_required f,
      ))

required_names-again :
    (p x : ReturnProps)
    → required_names p ≡ ok x
    → (required_names x ≡ ok x) × SameRest p x × SameIds p x
unfolding required_names
required_names-again p x h =
    let (method, w, h10) =
      >>=-eq-ok (require_text p.payment_method_code sale_return_payment_method_required) _ h in
    let (reason, r, h11) = >>=-eq-ok (require_text p.reason sale_return_reason_required) _ h10 in
    let (actor, a, h12) = >>=-eq-ok (require_text p.actor_id sale_return_actor_required) _ h11 in
    let (terminal, e, h13) =
      >>=-eq-ok (require_text p.terminal_id sale_return_terminal_required) _ h12 in
    let (node, o, h14) =
      >>=-eq-ok (require_text p.origin_node_id sale_return_node_required) _ h13 in
    subst (λ z. (required_names z ≡ ok z) × SameRest p z × SameIds p z) (ok_injective h14)
      (ground (
        arith,
        require_text-again p.payment_method_code method sale_return_payment_method_required w,
        require_text-again p.reason reason sale_return_reason_required r,
        require_text-again p.actor_id actor sale_return_actor_required a,
        require_text-again p.terminal_id terminal sale_return_terminal_required e,
        require_text-again p.origin_node_id node sale_return_node_required o,
      ))

-- Only these texts decide whether the identifiers are accepted.
required_ids-same :
    (p q : ReturnProps) → SameIds p q → required_ids p ≡ ok p → required_ids q ≡ ok q
unfolding required_ids
required_ids-same p q h k = ground (arith, h, k)

checked :
    (x : ReturnProps)
    → throw_if (is_empty x.lines) sale_return_lines_required ≡ ok tt
    → throw_if (leb_ℤ x.refund.minor_units (pos 0)) sale_return_refund_invalid ≡ ok tt
    → throw_if (is_invalid x.occurred_at) sale_return_timestamp_invalid ≡ ok tt
    → build_lines [] x.lines ≡ ok x.lines
    → required_ids x ≡ ok x
    → required_names x ≡ ok x
    → build_return x ≡ ok x
unfolding build_return
checked x n m t l i o = ground (arith, n, m, t, l, i, o)

build_return-again : (p x : ReturnProps) → build_return p ≡ ok x → build_return x ≡ ok x
unfolding build_return
build_return-again p x h =
    let (_, n, h1) = >>=-eq-ok (throw_if (is_empty p.lines) sale_return_lines_required) _ h in
    let (_, m, h2) =
      >>=-eq-ok (throw_if (leb_ℤ p.refund.minor_units (pos 0)) sale_return_refund_invalid) _ h1 in
    let (_, t, h3) =
      >>=-eq-ok (throw_if (is_invalid p.occurred_at) sale_return_timestamp_invalid) _ h2 in
    let (lines, l, h4) = >>=-eq-ok (build_lines [] p.lines) _ h3 in
    let (q, i, h5) = >>=-eq-ok (required_ids p) _ h4 in
    let (ids, same) = required_ids-again p q i in
    let (names, rest, same_ids) = required_names-again (record q { lines = lines }) x h5 in
    let with_lines : required_ids (record q { lines = lines }) ≡ ok (record q { lines = lines }) =
      required_ids-same q (record q { lines = lines }) (refl, refl, refl, refl, refl, refl) ids in
    let of_x : required_ids x ≡ ok x =
      required_ids-same (record q { lines = lines }) x same_ids with_lines in
    let lines_x : build_lines [] x.lines ≡ ok x.lines =
      subst (λ ls. build_lines [] ls ≡ ok ls) rest.0 (build_lines-again p.lines lines [] l) in
    let some_lines : is_empty x.lines ≡ is_empty p.lines =
      subst (λ ls. is_empty ls ≡ is_empty p.lines) rest.0
        (build_lines-nonempty p.lines lines [] l) in
    let refund : p.refund ≡ x.refund = same.1 ∙ rest.1 in
    let at : p.occurred_at ≡ x.occurred_at = same.2 ∙ rest.2 in
    checked x (subst (λ b. throw_if b sale_return_lines_required ≡ ok tt) (sym some_lines) n)
      (subst (λ m. throw_if (leb_ℤ m.minor_units (pos 0)) sale_return_refund_invalid ≡ ok tt) refund
        m)
      (subst (λ d. throw_if (is_invalid d) sale_return_timestamp_invalid ≡ ok tt) at t) lines_x of_x
      names

-- A return that was registered is restored from its own fields: `restore` cleans and checks them
-- again, accepts them, and gives the same return but for its event.
pub return_restored :
    (event_id : Text) (p : ReturnProps) (r : SaleReturn)
    → register_return event_id p ≡ ok r
    → restore_return r.fields ≡ ok (record r { events = [] })
unfolding register_return restore_return
return_restored event_id p r h =
    let (_, _, h1) = >>=-eq-ok (require_text p.sale_event_id sale_return_sale_event_required) _ h in
    let (built, b, h2) = >>=-eq-ok (build_return p) _ h1 in
    let (event, e, h3) = >>=-eq-ok (require_text event_id sale_return_event_id_required) _ h2 in
    let again : build_return r.fields ≡ ok r.fields =
      subst (λ z. build_return z.fields ≡ ok z.fields) (ok_injective h3)
        (build_return-again p built b) in
    ground (arith, again)
