-- ===== src/Purchasing/Receipt.antt =====
-- packages/core/src/domain/purchasing/purchase-receipt.ts: the receipts of purchases.
mod State
mod Start
mod Methods
pub mod Restored
pub mod Life
unfoldable pub use State.*
unfoldable pub use Start.*
unfoldable pub use Methods.*
