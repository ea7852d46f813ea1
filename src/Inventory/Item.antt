-- ===== src/Inventory/Item.antt =====
-- packages/core/src/domain/inventory/stock-item.ts: the class `StockItem`.
mod State
mod Methods
mod Create
mod Allocate
mod Restore
pub mod Steps
pub mod History
pub mod Index
pub mod Sums
pub mod Covers
pub mod Levels
pub mod Fefo
pub mod Restored
unfoldable pub use State.*
unfoldable pub use Methods.*
unfoldable pub use Create.*
unfoldable pub use Allocate.*
unfoldable pub use Restore.*
