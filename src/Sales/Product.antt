-- ===== src/Sales/Product.antt =====
-- packages/core/src/domain/catalog/product-snapshot.ts and cost-snapshot.ts: what a sale copies of a
-- product.
use cullen.Prelude.{ℕ, Option, if◌then◌else◌}
use cullen.Prelude.Int.{ℤ, pos, ltb_ℤ}
use cullen.Prelude.Text.{Text, Date, is_invalid, Number, integer, not_integer}
use cullen.Shared.Errors.{
  cost_snapshot_negative, cost_snapshot_version_invalid, cost_snapshot_source_required,
  cost_snapshot_instant_invalid,
}
use cullen.Shared.Result.{Result, ok, err, ◌>>=◌, ◌>>◌, throw_if, require_text}
use cullen.Shared.Money.{Money}
use cullen.Shared.TaxRate.{TaxRate}

pub record CostSnapshot : Type 0 where
  pub unit_cost : Money
  pub version : ℤ
  pub source : Text
  pub observed_at : Date

abbrev positive_version : Number → Result ℤ
positive_version (integer v) = if ltb_ℤ v (pos 1) then err cost_snapshot_version_invalid else ok v
positive_version not_integer = err cost_snapshot_version_invalid

-- `CostSnapshot.create`
unfoldable pub create_cost_snapshot : Money → Number → Text → Date → Result CostSnapshot
create_cost_snapshot unit_cost version source observed_at = do
  throw_if (ltb_ℤ unit_cost.minor_units (pos 0)) cost_snapshot_negative
  version' ← positive_version version
  source' ← require_text source cost_snapshot_source_required
  throw_if (is_invalid observed_at) cost_snapshot_instant_invalid
  ok (record {
    unit_cost = unit_cost;
    version = version';
    source = source';
    observed_at = observed_at;
  })

-- `ProductSnapshot`, whose `create` checks nothing. The unit's scale, which was checked when the unit
-- of measure was created, is a natural number.
pub record ProductSnapshot : Type 0 where
  pub product_id : Text
  pub description : Text
  pub price : Money
  pub tax_rate : TaxRate
  pub unit_code : Text
  pub unit_scale : ℕ
  pub cost_snapshot : Option CostSnapshot

-- `withCostSnapshot`
unfoldable pub with_cost_snapshot : ProductSnapshot → Option CostSnapshot → ProductSnapshot
with_cost_snapshot p c = record p { cost_snapshot = c }
