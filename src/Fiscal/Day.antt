-- ===== src/Fiscal/Day.antt =====
-- packages/core/src/domain/fiscal/fiscal-day.ts: fiscal days, their X reports and the Z report that closes them.
mod State
mod Open
mod Methods
pub mod Slots
pub mod Shows
pub mod Steps
pub mod Calls
pub mod Kept
pub mod Invariant
pub mod Endings
unfoldable pub use State.*
unfoldable pub use Open.*
unfoldable pub use Methods.*
