-- ===== src/Tests/Returns.antt =====
-- The theorem on sale returns, applied.
use cullen.Prelude.{◌≡◌, refl, some, [], ◌∷◌}
use cullen.Prelude.Text.{codes, eqb, trim, trim_start, is_space}
use cullen.Prelude.Text.Decimal.{digits_from, show_ℤ}
use cullen.Shared.Result.{ok, require_text}
use cullen.Inventory.Maps.{set_add}
use cullen.Sales.Return.{
  ReturnLine, ReturnProps, SaleReturn, register_return, restore_return, build_return, required_ids,
  required_names, build_lines, build_line, return_line_key,
}
use cullen.Sales.Return.Restored.{return_restored}
use cullen.Tests.Values.{monday, pieces, dollars}

abbrev line : ReturnLine
line = record {
  id = codes "l1";
  sale_item_id = codes "i1";
  product_id = codes "p1";
  stock_item_id = codes "k1";
  batch_id = some (codes "b1");
  quantity = pieces 2;
  unit_cost = some (dollars 250);
}

-- A sale item that came from two batches.
abbrev props : ReturnProps
props = record {
  id = codes "r1";
  sale_id = codes "s1";
  sale_event_id = codes "e1";
  original_document_id = codes "d1";
  credit_note_id = codes "n1";
  shift_id = codes "h1";
  refund = dollars 900;
  payment_method_code = codes "CASH";
  reason = codes "broken";
  actor_id = codes "ana";
  terminal_id = codes "t1";
  origin_node_id = codes "n1";
  occurred_at = monday;
  lines = line ∷ record line { id = codes "l2"; batch_id = some (codes "b2") } ∷ [];
}

abbrev registered : SaleReturn
registered = record {
  fields = props;
  events =
      record {
        event_id = codes "e2";
        aggregate_id = codes "r1";
        aggregate_version = 1;
        occurred_at = monday;
        payload = props;
        line_count = 2;
      }
      ∷ [];
}

return_restored_example : restore_return props ≡ ok (record registered { events = [] })
unfolding register_return build_return required_ids required_names build_lines build_line
    return_line_key digits_from show_ℤ set_add require_text trim trim_start is_space eqb
return_restored_example = return_restored (codes "e2") props registered refl
