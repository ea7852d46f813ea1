-- ===== src/Cash/Shift.antt =====
-- packages/core/src/domain/cash/shift.ts: the class `Shift`.
mod State
mod Open
mod Methods
mod Reckoning
mod Close
pub mod Guards
pub mod Register
pub mod Closing
pub mod Covered
unfoldable pub use State.*
unfoldable pub use Open.*
unfoldable pub use Methods.*
unfoldable pub use Reckoning.*
unfoldable pub use Close.*
