-- ===== src/Tests/Counts.antt =====
-- The theorems on stock counts, applied.
use cullen.Prelude.{◌≡◌, refl, none, some, [], ◌∷◌}
use cullen.Prelude.Int.{pos, negsuc, ◌-ℤ◌, ◌*ℤ◌}
use cullen.Prelude.Double.{
  of_ℤ, subtract_doubles, round_double, round, spacing, nearest_even, eqb_double,
}
use cullen.Prelude.Text.{codes, eqb, trim, trim_start, is_space, integer}
use cullen.Shared.Result.{ok, require_text}
use cullen.Inventory.Maps.{set_add}
use cullen.Inventory.Count.{
  CountProps, open_count, StockCount, CountLine, Difference, count_open, counted, approved,
  close_count, close_call, approve, approve_call, ApprovalProps, line_call, after_count_calls,
  after_count_call, count_date, do_not_match, set_of, line_of, record_line,
}
use cullen.Inventory.Count.Frozen.{
  CountInv, reachable-CountInv, approved_as_closed, repeated_difference_accepted,
}
use cullen.Tests.Values.{monday, tuesday, pieces}

abbrev props : CountProps
props = record {
  id = codes "c1";
  opened_by = codes "ana";
  origin_node_id = codes "n1";
  opened_at = monday;
}

abbrev open_one : StockCount
open_one = record {
  id = codes "c1";
  opened_by = codes "ana";
  origin_node_id = codes "n1";
  opened_at = monday;
  status = count_open;
  version = 1;
  line_map = [];
  differences = none;
  closed_at = none;
  approved_by = none;
  approved_at = none;
  rejected_by = none;
  rejected_at = none;
  rejection_reason = none;
  events = [];
}

abbrev line : CountLine
line = record {
  id = codes "l1";
  product_id = codes "p1";
  stock_item_id = codes "k1";
  batch_id = none;
  counted_quantity = pieces 7;
}

abbrev difference : Difference
difference = record {
  line_id = codes "l1";
  stock_item_id = codes "k1";
  batch_id = none;
  quantity_scale = integer (pos 0);
  expected_scaled = of_ℤ (pos 9);
  counted_scaled = of_ℤ (pos 7);
  difference_scaled = of_ℤ (negsuc 1);
  stock_availability_version = integer (pos 4);
}

abbrev approval : ApprovalProps
approval = record {
  actor_id = codes "eva";
  terminal_id = codes "t1";
  reason = codes "monthly";
  occurred_at = tuesday;
  event_id = codes "e1";
}

-- A count with its line, before and after it is closed.
abbrev filled : StockCount
filled = record open_one { line_map = (codes "k1:", line) ∷ []; version = 2 }

abbrev closed : StockCount
closed = record filled {
  differences = some (difference ∷ []);
  closed_at = some monday;
  status = counted;
  version = 3;
}

reachable-CountInv_example : CountInv (
    after_count_calls
      (line_call line ∷ close_call (difference ∷ []) monday ∷ approve_call approval ∷ [])
      open_one)
unfolding open_count require_text trim trim_start is_space
reachable-CountInv_example =
    reachable-CountInv props open_one
      (line_call line ∷ close_call (difference ∷ []) monday ∷ approve_call approval ∷ []) refl

approved_as_closed_example :
    let f = (approve approval (after_count_calls (line_call line ∷ []) closed)).1 in
    (difference ∷ [] ≡ difference ∷ []) × (f.line_map ≡ filled.line_map) × (f.status ≡ approved)
unfolding close_count count_date do_not_match set_of set_add line_of eqb approve require_text trim
    trim_start is_space after_count_calls after_count_call record_line ◌-ℤ◌ eqb_double
    subtract_doubles round_double round spacing nearest_even ◌*ℤ◌
approved_as_closed_example =
    approved_as_closed (difference ∷ []) (difference ∷ []) monday approval (line_call line ∷ [])
      filled closed (approve approval (after_count_calls (line_call line ∷ []) closed)).1 refl refl

repeated_difference_accepted_example :
    close_count (difference ∷ difference ∷ []) monday filled
    ≡ (ok tt, record closed { differences = some (difference ∷ difference ∷ []) })
unfolding close_count count_date do_not_match set_of set_add line_of eqb ◌-ℤ◌ eqb_double
    subtract_doubles round_double round spacing nearest_even ◌*ℤ◌
repeated_difference_accepted_example =
    repeated_difference_accepted difference [] monday filled closed refl
