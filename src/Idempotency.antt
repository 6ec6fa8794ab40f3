-- ===== src/Idempotency.antt =====
-- The receipts of idempotent executions, of idempotency/.
pub mod Receipts
pub mod Claims
mod Examples
