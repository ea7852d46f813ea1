-- ===== src/Shared/Rounding.antt =====
-- packages/shared/src/money.ts: `divideRoundingHalfAwayFromZero`.
pub mod Nearest
use cullen.Prelude.{Bool, if◌then◌else◌}
use cullen.Prelude.Int.{ℤ, pos, negsuc, ◌+ℤ◌, ◌-ℤ◌, ◌*ℤ◌, ◌/ℤ◌, ◌%ℤ◌, leb_ℤ, ltb_ℤ}

unfoldable pub divide_rounding_half_away_from_zero : ℤ → ℤ → ℤ
unfolding ◌+ℤ◌ ◌-ℤ◌ ◌*ℤ◌ ◌/ℤ◌ ◌%ℤ◌
divide_rounding_half_away_from_zero numerator denominator =
    let quotient = numerator /ℤ denominator in
    let remainder = numerator %ℤ denominator in
    let double_remainder = remainder *ℤ pos 2 in
    let absolute_double_remainder =
      if ltb_ℤ double_remainder (pos 0) then pos 0 -ℤ double_remainder else double_remainder in
    if leb_ℤ denominator absolute_double_remainder
    then quotient +ℤ (if ltb_ℤ numerator (pos 0) then negsuc 0 else pos 1)
    else quotient
