-- ===== src/Shared/Quantity.antt =====
-- packages/shared/src/quantity.ts and percentage.ts: scaled integers and basis points.
use cullen.Prelude.{ℕ, Bool, not, leb, ◌==◌, if◌then◌else◌}
use cullen.Prelude.Int.{ℤ, pos, negsuc, ◌+ℤ◌, ◌-ℤ◌, eqb_ℤ}
use cullen.Prelude.Text.{Number, integer, not_integer, is_safe}
use cullen.Shared.Errors.{
  quantity_invalid_value, quantity_invalid_scale, quantity_scale_mismatch,
  percentage_invalid_basis_points,
}
use cullen.Shared.Result.{Result, ok, err, ◌>>◌, throw_if}

abbrev pub max_quantity_scale : ℕ
max_quantity_scale = 6

-- The quantity scaled_value / 10 ^ scale.
pub record Quantity : Type 0 where
  pub scaled_value : ℤ
  pub scale : ℕ

-- The scale check of `fromScaled`, after the check of the value.
abbrev with_scale : ℤ → Number → Result Quantity
with_scale v (integer (pos scale)) =
    if leb scale max_quantity_scale
    then ok (record { scaled_value = v; scale = scale })
    else err quantity_invalid_scale
with_scale v (integer (negsuc scale)) = err quantity_invalid_scale
with_scale v not_integer = err quantity_invalid_scale

-- `Quantity.fromScaled`
unfoldable pub from_scaled : Number → Number → Result Quantity
from_scaled (integer v) scale = if is_safe v then with_scale v scale else err quantity_invalid_value
from_scaled not_integer scale = err quantity_invalid_value

-- `Quantity.zero`
unfoldable pub zero_quantity : Number → Result Quantity
unfolding from_scaled
zero_quantity scale = from_scaled (integer (pos 0)) scale

-- `assertSameScale`
abbrev pub assert_same_scale : Quantity → Quantity → Result (Unit {0})
assert_same_scale q other = throw_if (not (q.scale == other.scale)) quantity_scale_mismatch

-- `Quantity.add`
unfoldable pub add : Quantity → Quantity → Result Quantity
unfolding from_scaled
add q other = do
  assert_same_scale q other
  from_scaled (integer (q.scaled_value +ℤ other.scaled_value)) (integer (pos q.scale))

-- `Quantity.subtract`
unfoldable pub subtract : Quantity → Quantity → Result Quantity
unfolding from_scaled
subtract q other = do
  assert_same_scale q other
  from_scaled (integer (q.scaled_value -ℤ other.scaled_value)) (integer (pos q.scale))

-- `Quantity.isZero`
unfoldable pub is_zero : Quantity → Bool
is_zero q = eqb_ℤ q.scaled_value (pos 0)

-- A percentage in basis points, 1600 for 16.00%.
pub record Percentage : Type 0 where
  pub basis_points : ℕ

-- `Percentage.fromBasisPoints`
unfoldable pub from_basis_points : Number → Result Percentage
from_basis_points (integer (pos n)) =
    if is_safe (pos n)
    then ok (record { basis_points = n })
    else err percentage_invalid_basis_points
from_basis_points (integer (negsuc n)) = err percentage_invalid_basis_points
from_basis_points not_integer = err percentage_invalid_basis_points
