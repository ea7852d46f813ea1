-- ===== src/Shared.antt =====
-- packages/shared/src: domain errors, money, quantities, percentages and tax rates.
pub mod Errors
pub mod Result
pub mod Action
pub mod Rounding
pub mod Quantity
pub mod Money
pub mod TaxRate
