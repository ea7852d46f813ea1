-- ===== src/Cash.antt =====
-- packages/core/src/domain/cash: cash registers, their shifts and the movements of a shift.
pub mod Movement
pub mod Balances
pub mod Shift
