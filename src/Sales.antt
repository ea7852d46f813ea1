-- ===== src/Sales.antt =====
-- packages/core/src/domain/sales: sales with their items, discounts and payments.
pub mod Product
pub mod Item
pub mod Payment
pub mod Sale
pub mod Return
pub mod Recipient
