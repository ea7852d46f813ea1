-- ===== src/Inventory/Count/Methods.antt =====
-- stock-count.ts: the methods of `StockCount`.
use cullen.Prelude.{
  ℕ, ◌+◌, Bool, true, false, not, ◌&&◌, ◌||◌, Option, none, some, List, [], ◌∷◌, any, find?, map,
  length, is_empty, push, ◌==◌, if◌then◌else◌,
}
use cullen.Prelude.Int.{pos, ltb_ℤ, eqb_ℤ}
use cullen.Prelude.Double.{of_ℤ, is_negative, subtract_doubles, eqb_double}
use cullen.Prelude.Text.{Text, eqb, Date, is_invalid, Number, integer, not_integer, is_safe}
use cullen.Shared.Errors.{
  stock_count_not_open, stock_count_empty, stock_count_difference_mismatch,
  stock_count_timestamp_invalid, stock_count_not_counted, stock_count_actor_required,
  stock_count_terminal_required, stock_count_reason_required, stock_count_event_id_required,
  stock_count_rejection_reason_required,
}
use cullen.Shared.Result.{Result, ok, err, require_text}
use cullen.Shared.Action.{Action, pure, lift, gets, throw_when, modify, ◌>>=◌, ◌>>◌}
use cullen.Inventory.Maps.{map_get, map_set, set_add}
use cullen.Inventory.Count.State.{
  StockCount, CountStatus, count_open, counted, approved, rejected, CountLine, Difference,
  ApprovedLine, lines, line_key, create_line,
}

abbrev pub is_open_count : CountStatus → Bool
is_open_count s = elim s [ count_open ↦ true | _ ↦ false ]

abbrev pub is_counted : CountStatus → Bool
is_counted s = elim s [ counted ↦ true | _ ↦ false ]

-- `validDate`
unfoldable pub count_date : Date → Result Date
count_date d = if is_invalid d then err stock_count_timestamp_invalid else ok d

-- `touch`
abbrev touch : Action StockCount (Unit {0})
touch = modify (λ c. record c { version = c.version + 1 })

-- `recordLine`
unfoldable pub record_line : CountLine → Action StockCount CountLine
record_line props = do
  throw_when (λ c. not (is_open_count c.status)) stock_count_not_open
  line ← lift (create_line props)
  modify (λ c. record c { line_map = map_set (line_key line) line c.line_map })
  touch
  pure line

-- `new Set(texts)`, from the members so far.
unfoldable pub set_of : List Text → List Text → List Text
set_of [] seen = seen
set_of (t ∷ ts) seen = set_of ts (set_add t seen)

abbrev pub same_batch : Option Text → Option Text → Bool
same_batch none none = true
same_batch none (some b) = false
same_batch (some a) none = false
same_batch (some a) (some b) = eqb a b

abbrev pub is_version : Number → Bool
is_version (integer z) = is_safe z && not (ltb_ℤ z (pos 1))
is_version not_integer = false

abbrev pub is_scale : Number → ℕ → Bool
is_scale (integer z) n = eqb_ℤ z (pos n)
is_scale not_integer n = false

-- Whether a difference is that of the line.
abbrev pub is_difference_of : Difference → CountLine → Bool
is_difference_of d l =
    eqb d.stock_item_id l.stock_item_id
    && same_batch d.batch_id l.batch_id
    && is_scale d.quantity_scale l.counted_quantity.scale
    && eqb_double d.counted_scaled (of_ℤ l.counted_quantity.scaled_value)
    && not (is_negative d.expected_scaled)
    && eqb_double d.difference_scaled (subtract_doubles d.counted_scaled d.expected_scaled)
    && is_version d.stock_availability_version

-- `lines.find(({ id }) => id === difference.lineId)`
unfoldable pub line_of : Difference → List CountLine → Option CountLine
line_of d ls = find? (λ l. eqb l.id d.line_id) ls

abbrev pub is_mismatch : List CountLine → Difference → Bool
is_mismatch ls d = elim (line_of d ls) [ none ↦ true | some l ↦ not (is_difference_of d l) ]

abbrev pub line_ids : List CountLine → List Text
line_ids ls = set_of (map (λ l. l.id) ls) []

abbrev pub difference_ids : List Difference → List Text
difference_ids ds = set_of (map (λ d. d.line_id) ds) []

-- The condition under which `close` throws.
unfoldable pub do_not_match : List Difference → List CountLine → Bool
unfolding line_of
do_not_match ds ls =
    not (length (line_ids ls) == length (difference_ids ds))
    || any (λ id. not (any (eqb id) (difference_ids ds))) (line_ids ls)
    || any (is_mismatch ls) ds

-- `close`: the differences are assigned before the date is checked.
unfoldable pub close_count : List Difference → Date → Action StockCount (Unit {0})
unfolding count_date
close_count differences occurred_at = do
  throw_when (λ c. not (is_open_count c.status)) stock_count_not_open
  throw_when (λ c. is_empty c.line_map) stock_count_empty
  throw_when (λ c. do_not_match differences (lines c)) stock_count_difference_mismatch
  modify (λ c. record c { differences = some differences })
  closed_at ← lift (count_date occurred_at)
  modify (λ c. record c { closed_at = some closed_at; status = counted })
  touch

-- What `approve` takes.
pub record ApprovalProps : Type 0 where
  pub actor_id : Text
  pub terminal_id : Text
  pub reason : Text
  pub occurred_at : Date
  pub event_id : Text

abbrev pub or_no_differences : Option (List Difference) → List Difference
or_no_differences none = []
or_no_differences (some ds) = ds

-- `productByLineId`
abbrev product_by_line : List CountLine → List (Text × Text) → List (Text × Text)
product_by_line [] m = m
product_by_line (l ∷ ls) m = product_by_line ls (map_set l.id l.product_id m)

abbrev approved_line : List CountLine → Difference → ApprovedLine
approved_line ls d = record {
  product_id = map_get d.line_id (product_by_line ls []);
  difference = d;
}

-- `approve`
unfoldable pub approve : ApprovalProps → Action StockCount (List Difference)
unfolding count_date
approve props = do
  throw_when (λ c. not (is_counted c.status)) stock_count_not_counted
  actor_id ← lift (require_text props.actor_id stock_count_actor_required)
  terminal_id ← lift (require_text props.terminal_id stock_count_terminal_required)
  reason ← lift (require_text props.reason stock_count_reason_required)
  event_id ← lift (require_text props.event_id stock_count_event_id_required)
  approved_at ← lift (count_date props.occurred_at)
  modify λ c. record c {
    approved_by = some actor_id;
    approved_at = some approved_at;
    status = approved;
  }
  touch
  differences ← gets (λ c. or_no_differences c.differences)
  modify λ c. record c {
    events = push c.events (record {
      event_id = event_id;
      aggregate_id = c.id;
      aggregate_version = c.version;
      occurred_at = approved_at;
      terminal_id = terminal_id;
      reason = reason;
      line_count = length differences;
      lines = map (approved_line (lines c)) differences;
    });
  }
  pure differences

-- `reject`: the reason is assigned before the actor is checked.
unfoldable pub reject : Text → Text → Date → Action StockCount (Unit {0})
reject actor_id reason occurred_at = do
  throw_when (λ c. not (is_counted c.status)) stock_count_not_counted
  rejection_reason ← lift (require_text reason stock_count_rejection_reason_required)
  modify (λ c. record c { rejection_reason = some rejection_reason })
  rejected_by ← lift (require_text actor_id stock_count_actor_required)
  modify λ c. record c {
    rejected_by = some rejected_by;
    rejected_at = some occurred_at;
    status = rejected;
  }
  touch

-- The calls of the class's methods that change it.
pub data CountCall : Type 0 where
  line_call : CountLine → CountCall
  close_call : List Difference → Date → CountCall
  approve_call : ApprovalProps → CountCall
  reject_call : Text → Text → Date → CountCall

-- The count after a call, whether it succeeds or throws.
unfoldable pub after_count_call : CountCall → StockCount → StockCount
unfolding record_line close_count approve reject
after_count_call (line_call l) c = (record_line l c).1
after_count_call (close_call ds t) c = (close_count ds t c).1
after_count_call (approve_call p) c = (approve p c).1
after_count_call (reject_call a r t) c = (reject a r t c).1

-- The count after a sequence of calls.
unfoldable pub after_count_calls : List CountCall → StockCount → StockCount
after_count_calls [] c = c
after_count_calls (x ∷ xs) c = after_count_calls xs (after_count_call x c)
