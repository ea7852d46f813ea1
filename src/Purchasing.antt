-- ===== src/Purchasing.antt =====
-- packages/core/src/domain/purchasing: what is bought from suppliers.
pub mod Receipt
