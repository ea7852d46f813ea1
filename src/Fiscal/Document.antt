-- ===== src/Fiscal/Document.antt =====
-- packages/core/src/domain/fiscal/fiscal-document.ts: the state machine of a fiscal document.
mod State
mod Create
pub mod Frozen
pub mod Invariant
pub mod Atomicity
pub mod Issue
unfoldable pub use State.*
unfoldable pub use Create.*
