-- ===== src/Inventory.antt =====
-- packages/core/src/domain/inventory: the stock of a product.
pub mod Maps
pub mod Movement
pub mod Item
pub mod Count
