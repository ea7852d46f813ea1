-- ===== src/Tests/Shifts.antt =====
-- The theorems on shifts and their balances, applied.
use cullen.Prelude.{◌≡◌, refl, Bool, none, some, [], ◌∷◌, push}
use cullen.Prelude.Int.{pos, ◌+ℤ◌, ◌-ℤ◌, ◌≤ℤ◌}
use cullen.Prelude.Text.{Text, codes, eqb, trim, trim_start, is_space}
use cullen.Shared.Errors.{shift_invalid_state}
use cullen.Shared.Result.{ok, err, require_text}
use cullen.Shared.Money.{is_currency_code, from_minor_units, zero_money, add, subtract}
use cullen.Cash.Movement.{CashMovement, income, withdrawal, sale_payment, create_movement}
use cullen.Cash.Balances.{
  balance_key, get, put, apply_movement, balances_from, insert_entry, sort_entries,
  expected_balances, balance_for,
}
use cullen.Cash.Balances.Sum.{signed_sum, balance_for-eq-signed_sum}
use cullen.Cash.Shift.{
  Shift, open_shift, closed_shift, RegisterProps, register_movement, register_new, assert_covered,
  record_event, CloseProps, close, text_le, closing_balances,
}
use cullen.Cash.Shift.Guards.{closed_shift_refuses}
use cullen.Cash.Shift.Register.{
  repeated_sale_payment, withdrawal_never_overdraws, padded_identifier_duplicates,
}
use cullen.Tests.Values.{usd, dollars, cash_usd, monday, tuesday}

-- The collation by code units.
abbrev by_code_units : Text → Text → Bool
by_code_units s t = text_le s t

abbrev float : CashMovement
float = record {
  id = codes "m1";
  type = income;
  method = cash_usd;
  amount = dollars 500;
  reason = codes "float";
  registered_by = codes "ana";
  registered_at = monday;
  reference = none;
}

abbrev taken : CashMovement
taken = record float {
  id = codes "m2";
  type = withdrawal;
  amount = dollars 200;
  reason = codes "change";
  registered_at = tuesday;
}

abbrev sold : CashMovement
sold = record float {
  id = codes "m3";
  type = sale_payment;
  amount = dollars 1159;
  reason = codes "sale";
  registered_at = tuesday;
  reference = some (record { source_id = codes "s1"; source_event_id = codes "e7" });
}

abbrev shift : Shift
shift = record {
  id = codes "h1";
  cash_register_id = codes "c1";
  terminal_id = codes "t1";
  origin_node_id = codes "n1";
  opened_by = codes "ana";
  opened_at = monday;
  movements = float ∷ [];
  status = open_shift;
  version = 1;
  closing_balances = none;
  closed_at = none;
  closed_by = none;
  events = [];
}

abbrev request : CashMovement → RegisterProps
request m = record {
  movement = m;
  terminal_id = codes "t1";
  origin_node_id = codes "n1";
  event_id = codes "e2";
}

abbrev close_props : CloseProps
close_props = record {
  declared_balances = record { method = cash_usd; amount = dollars 490 } ∷ [];
  closed_by = codes "ana";
  terminal_id = codes "t1";
  origin_node_id = codes "n1";
  closed_at = tuesday;
  event_id = codes "e3";
}

abbrev shut : Shift
shut = record shift { status = closed_shift }

balance_for-eq-signed_sum_example : pos 300 ≡ signed_sum cash_usd.code usd (float ∷ taken ∷ [])
unfolding is_currency_code balance_for expected_balances balances_from apply_movement balance_key
    get put sort_entries insert_entry eqb zero_money from_minor_units add subtract ◌+ℤ◌ ◌-ℤ◌ text_le
balance_for-eq-signed_sum_example =
    balance_for-eq-signed_sum by_code_units (float ∷ taken ∷ []) cash_usd.code usd (dollars 300)
      refl (refl, (refl, tt)) refl

closed_shift_refuses_example :
    (register_movement by_code_units (request taken) shut ≡ (err shift_invalid_state, shut))
    × (close by_code_units close_props shut ≡ (err shift_invalid_state, shut))
unfolding eqb
closed_shift_refuses_example =
    closed_shift_refuses by_code_units shut (request taken) close_props refl refl refl refl

abbrev foreign : RegisterProps
foreign = record (request taken) { terminal_id = codes "t" }

abbrev after_sale : Shift
after_sale = (register_movement by_code_units (request sold) shift).1

repeated_sale_payment_example :
    register_movement by_code_units (request sold) after_sale ≡ (ok sold, after_sale)
unfolding trim trim_start is_space register_movement register_new create_movement require_text
    assert_covered eqb record_event
repeated_sale_payment_example =
    repeated_sale_payment by_code_units (request sold) shift after_sale sold refl refl refl

abbrev after_withdrawal : Shift
after_withdrawal = (register_movement by_code_units (request taken) shift).1

withdrawal_never_overdraws_example :
    pos 0 ≤ℤ signed_sum cash_usd.code usd after_withdrawal.movements
unfolding trim trim_start is_space register_movement register_new create_movement require_text
    assert_covered eqb record_event balance_for expected_balances balances_from apply_movement
    balance_key get put sort_entries insert_entry zero_money from_minor_units is_currency_code add
    subtract ◌+ℤ◌ ◌-ℤ◌ text_le
withdrawal_never_overdraws_example =
    withdrawal_never_overdraws by_code_units (request taken) shift after_withdrawal taken refl refl
      refl (refl, tt) refl

abbrev padded : CashMovement
padded = record taken { id = codes " m1" }

abbrev after_padded : Shift
after_padded = (register_movement by_code_units (request padded) shift).1

padded_identifier_duplicates_example :
    (codes "m1" ≡ codes "m1")
    × (after_padded.movements ≡ push (float ∷ []) (record taken { id = codes "m1" }))
unfolding trim trim_start is_space register_movement register_new create_movement require_text
    assert_covered eqb record_event balance_for expected_balances balances_from apply_movement
    balance_key get put sort_entries insert_entry zero_money from_minor_units is_currency_code add
    subtract ◌+ℤ◌ ◌-ℤ◌ text_le
padded_identifier_duplicates_example =
    padded_identifier_duplicates by_code_units (request padded) shift after_padded
      (record taken { id = codes "m1" }) float refl refl refl

abbrev after_close : Shift
after_close = (close by_code_units close_props shift).1
