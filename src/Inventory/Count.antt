-- ===== src/Inventory/Count.antt =====
-- packages/core/src/domain/inventory/stock-count.ts: a count of the stock, and the differences that it finds.
mod State
mod Methods
pub mod Matching
pub mod Frozen
unfoldable pub use State.*
unfoldable pub use Methods.*
