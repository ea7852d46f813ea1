-- ===== src/Cash/Balances.antt =====
-- packages/core/src/domain/cash/shift.ts: `balanceKey`, the maps of balances by key, and sorting.
mod Defs
pub mod Keys
pub mod Sum
unfoldable pub use Defs.*
