-- ===== src/Sales/Sale.antt =====
-- packages/core/src/domain/sales/sale.ts: the class `Sale`.
mod State
mod Totals
mod Start
mod Checks
mod Methods
pub mod Locks
pub mod Coverage
pub mod Payments
pub mod Versions
unfoldable pub use State.*
unfoldable pub use Totals.*
unfoldable pub use Start.*
unfoldable pub use Checks.*
unfoldable pub use Methods.*
