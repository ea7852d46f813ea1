-- ===== src/Purchasing/Receipt/Restored.antt =====
-- What is restored from a receipt's own fields.
use cullen.Prelude.{
  ◌≡◌, refl, sym, subst, ap, ◌∙◌, true, false, Option, none, some, List, [], ◌∷◌, any, ◌&&◌,
  is_empty, arith,
}
use cullen.Prelude.Text.{Text, codes, eqb, Date}
use cullen.Prelude.Text.Trim.{trim_idem}
use cullen.Shared.Errors.{
  DomainError, purchase_receipt_supplier_name_required, purchase_receipt_fiscal_address_required,
  purchase_receipt_lines_required, purchase_receipt_line_id_required,
  purchase_receipt_line_duplicated, purchase_receipt_line_invalid,
  purchase_receipt_product_required, purchase_receipt_stock_item_required,
  purchase_receipt_unit_required, purchase_receipt_batch_expiry_invalid,
  purchase_receipt_source_number_required, purchase_receipt_source_date_invalid,
  purchase_receipt_id_required, purchase_receipt_supplier_required,
  purchase_receipt_effective_date_invalid, purchase_receipt_actor_required,
  purchase_receipt_origin_node_required, purchase_receipt_created_at_invalid,
}
use cullen.Shared.Result.{ok, ◌>>=◌, throw_if, require_text, >>=-eq-ok, ok_injective}
use cullen.Shared.Result.Again.{require_text-again}
use cullen.Inventory.Maps.{set_add}
use cullen.Purchasing.Receipt.State.{
  PurchaseReceipt, StartReceiptProps, ReceiptLine, SupplierSnapshot, SourceDocument,
}
use cullen.Purchasing.Receipt.Start.{
  optional, receipt_date, optional_date, start_snapshot, is_missing, is_invalid_line, start_line,
  start_lines, start_source, start_props, start_receipt, RestoreReceiptProps, restore_receipt,
}
use cullen.Purchasing.Receipt.Methods.{
  ReceiptCall, complete_call, reverse_call, complete_receipt, reverse_receipt, assert_can_reverse,
  after_receipt_calls, CompleteReceipt, ReverseReceipt,
}

optional-again : (o : Option Text) → optional (optional o) ≡ optional o
unfolding optional
optional-again none = refl
optional-again (some t) = ground (arith, trim_idem t)

receipt_date-again :
    (d y : Date) (e : DomainError) → receipt_date d e ≡ ok y → receipt_date y e ≡ ok y
unfolding receipt_date
receipt_date-again d y e h =
    let same : d ≡ y = ground (arith, h) in subst (λ z. receipt_date z e ≡ ok y) same h

optional_date-again :
    (o y : Option Date) (e : DomainError) → optional_date o e ≡ ok y → optional_date y e ≡ ok y
unfolding optional_date
optional_date-again none y e h = subst (λ z. optional_date z e ≡ ok z) (ok_injective h) refl
optional_date-again (some d) y e h =
    let (x, f, g) = >>=-eq-ok (receipt_date d e) _ h in
    let again = receipt_date-again d x e f in
    subst (λ z. optional_date z e ≡ ok z) (ok_injective g) (ap (λ r. r >>= λ x. ok (some x)) again)

start_line-again :
    (seen : List Text) (l x : ReceiptLine) → start_line seen l ≡ ok x → start_line seen x ≡ ok x
unfolding start_line
start_line-again seen l x h =
    let (id, i, h1) = >>=-eq-ok (require_text l.id purchase_receipt_line_id_required) _ h in
    let (_, d, h2) =
      >>=-eq-ok (throw_if (any (eqb id) seen) purchase_receipt_line_duplicated) _ h1 in
    let (_, v, h3) = >>=-eq-ok (throw_if (is_invalid_line l) purchase_receipt_line_invalid) _ h2 in
    let (product, p, h4) =
      >>=-eq-ok (require_text l.product_id purchase_receipt_product_required) _ h3 in
    let (item, s, h5) =
      >>=-eq-ok (require_text l.stock_item_id purchase_receipt_stock_item_required) _ h4 in
    let (unit, u, h6) = >>=-eq-ok (require_text l.unit_code purchase_receipt_unit_required) _ h5 in
    let (expiry, t, h7) =
      >>=-eq-ok (optional_date l.batch_expires_at purchase_receipt_batch_expiry_invalid) _ h6 in
    subst (λ z. start_line seen z ≡ ok z) (ok_injective h7)
      (ground (
        arith,
        d,
        v,
        require_text-again l.id id purchase_receipt_line_id_required i,
        require_text-again l.product_id product purchase_receipt_product_required p,
        require_text-again l.stock_item_id item purchase_receipt_stock_item_required s,
        require_text-again l.unit_code unit purchase_receipt_unit_required u,
        optional_date-again l.batch_expires_at expiry purchase_receipt_batch_expiry_invalid t,
        optional-again l.batch_id,
        optional-again l.batch_lot_number,
      ))

start_lines-again :
    (ls xs : List ReceiptLine) (seen : List Text)
    → start_lines seen ls ≡ ok xs
    → start_lines seen xs ≡ ok xs
unfolding start_lines
start_lines-again [] xs seen h = subst (λ z. start_lines seen z ≡ ok z) (ok_injective h) refl
start_lines-again (l ∷ ls) xs seen h =
    let (y, f, h1) = >>=-eq-ok (start_line seen l) _ h in
    let (ys, g, h2) = >>=-eq-ok (start_lines (set_add y.id seen) ls) _ h1 in
    subst (λ z. start_lines seen z ≡ ok z) (ok_injective h2)
      (ground (arith, start_line-again seen l y f, start_lines-again ls ys (set_add y.id seen) g))

start_snapshot-again : (s x : SupplierSnapshot) → start_snapshot s ≡ ok x → start_snapshot x ≡ ok x
unfolding start_snapshot
start_snapshot-again s x h =
    let (name, n, h1) =
      >>=-eq-ok (require_text s.legal_name purchase_receipt_supplier_name_required) _ h in
    let (_, a, h2) =
      >>=-eq-ok
        (throw_if (eqb s.tax_identity.country (codes "VE") && is_missing s.fiscal_address)
          purchase_receipt_fiscal_address_required)
        _ h1 in
    subst (λ z. start_snapshot z ≡ ok z) (ok_injective h2)
      (ground (
        arith,
        a,
        require_text-again s.legal_name name purchase_receipt_supplier_name_required n,
        optional-again s.trade_name,
      ))

start_source-again : (s x : SourceDocument) → start_source s ≡ ok x → start_source x ≡ ok x
unfolding start_source
start_source-again s x h =
    let (number, n, h1) =
      >>=-eq-ok (require_text s.number purchase_receipt_source_number_required) _ h in
    let (at, t, h2) =
      >>=-eq-ok (optional_date s.issued_at purchase_receipt_source_date_invalid) _ h1 in
    subst (λ z. start_source z ≡ ok z) (ok_injective h2)
      (ground (
        arith,
        require_text-again s.number number purchase_receipt_source_number_required n,
        optional_date-again s.issued_at at purchase_receipt_source_date_invalid t,
        optional-again s.series,
        optional-again s.control_number,
      ))

start_lines-nonempty :
    (ls xs : List ReceiptLine) (seen : List Text)
    → start_lines seen ls ≡ ok xs
    → is_empty xs ≡ is_empty ls
unfolding start_lines
start_lines-nonempty [] xs seen h = subst (λ z. is_empty z ≡ true) (ok_injective h) refl
start_lines-nonempty (l ∷ ls) xs seen h =
    let (y, f, h1) = >>=-eq-ok (start_line seen l) _ h in
    let (ys, g, h2) = >>=-eq-ok (start_lines (set_add y.id seen) ls) _ h1 in
    subst (λ z. is_empty z ≡ false) (ok_injective h2) refl

start_props-again : (p x : StartReceiptProps) → start_props p ≡ ok x → start_props x ≡ ok x
unfolding start_props
start_props-again p x h =
    let (snapshot, s, h1) = >>=-eq-ok (start_snapshot p.supplier_snapshot) _ h in
    let (_, n, h2) = >>=-eq-ok (throw_if (is_empty p.lines) purchase_receipt_lines_required) _ h1 in
    let (lines, l, h3) = >>=-eq-ok (start_lines [] p.lines) _ h2 in
    let (source, d, h4) = >>=-eq-ok (start_source p.source_document) _ h3 in
    let (id, i, h5) = >>=-eq-ok (require_text p.id purchase_receipt_id_required) _ h4 in
    let (supplier, u, h6) =
      >>=-eq-ok (require_text p.supplier_id purchase_receipt_supplier_required) _ h5 in
    let (effective, e, h7) =
      >>=-eq-ok (receipt_date p.effective_at purchase_receipt_effective_date_invalid) _ h6 in
    let (actor, a, h8) =
      >>=-eq-ok (require_text p.created_by purchase_receipt_actor_required) _ h7 in
    let (node, o, h9) =
      >>=-eq-ok (require_text p.origin_node_id purchase_receipt_origin_node_required) _ h8 in
    let (at, t, h10) =
      >>=-eq-ok (receipt_date p.created_at purchase_receipt_created_at_invalid) _ h9 in
    subst (λ z. start_props z ≡ ok z) (ok_injective h10)
      (ground (
        arith,
        n,
        start_snapshot-again p.supplier_snapshot snapshot s,
        start_lines-nonempty p.lines lines [] l,
        start_lines-again p.lines lines [] l,
        start_source-again p.source_document source d,
        require_text-again p.id id purchase_receipt_id_required i,
        require_text-again p.supplier_id supplier purchase_receipt_supplier_required u,
        receipt_date-again p.effective_at effective purchase_receipt_effective_date_invalid e,
        require_text-again p.created_by actor purchase_receipt_actor_required a,
        require_text-again p.origin_node_id node purchase_receipt_origin_node_required o,
        receipt_date-again p.created_at at purchase_receipt_created_at_invalid t,
        optional-again p.replaces_receipt_id,
      ))

-- No call changes what a receipt was started with.
complete-props :
    (p : CompleteReceipt) (r : PurchaseReceipt) → (complete_receipt p r).1.props ≡ r.props
unfolding complete_receipt
complete-props p r = ground arith

reverse-props : (p : ReverseReceipt) (r : PurchaseReceipt) → (reverse_receipt p r).1.props ≡ r.props
unfolding reverse_receipt assert_can_reverse
reverse-props p r = ground arith

after-props :
    (cs : List ReceiptCall) (r : PurchaseReceipt) → (after_receipt_calls cs r).props ≡ r.props
unfolding after_receipt_calls
after-props [] r = refl
after-props (complete_call p ∷ cs) r = after-props cs (complete_receipt p r).1 ∙ complete-props p r
after-props (reverse_call p ∷ cs) r = after-props cs (reverse_receipt p r).1 ∙ reverse-props p r

-- What is stored of a receipt: its fields but for the events.
abbrev pub stored_receipt : PurchaseReceipt → RestoreReceiptProps
stored_receipt r = record {
  started = r.props;
  status = r.status;
  version = r.version;
  completed_at = r.completed_at;
  reversed_at = r.reversed_at;
  reversed_by = r.reversed_by;
  reversal_reason = r.reversal_reason;
}

-- Whatever is called on a receipt, successfully or not, it is restored from its own fields: `restore`
-- cleans and checks them again, accepts them, and gives the same receipt but for its events.
pub receipt_restored :
    (p : StartReceiptProps) (r : PurchaseReceipt) (cs : List ReceiptCall)
    → start_receipt p ≡ ok r
    → let s = after_receipt_calls cs r in
      restore_receipt (stored_receipt s) ≡ ok (record s { events = [] })
unfolding restore_receipt start_receipt
receipt_restored p r cs h =
    let (props, f, g) = >>=-eq-ok (start_props p) _ h in
    let again : start_props r.props ≡ ok r.props =
      subst (λ z. start_props z.props ≡ ok z.props) (ok_injective g)
        (start_props-again p props f) in
    let s = after_receipt_calls cs r in
    let mine : start_props s.props ≡ ok s.props =
      subst (λ z. start_props z ≡ ok z) (sym (after-props cs r)) again in
    ground (arith, mine)
