-- ===== src/Fiscal.antt =====
-- packages/core/src/domain/fiscal: evidence of what the fiscal printer did, and fiscal documents.
pub mod Evidence
pub mod Content
pub mod Document
pub mod Day
