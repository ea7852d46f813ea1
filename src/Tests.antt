-- ===== src/Tests.antt =====
-- Concrete values of the program's types, and the theorems applied to them.
pub mod Values
pub mod Amounts
pub mod Rates
pub mod Documents
pub mod Sales
pub mod Shifts
pub mod Stock
pub mod Days
pub mod Counts
pub mod Receipts
pub mod Returns
