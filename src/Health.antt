-- ===== src/Health.antt =====
-- The health checks of health/.
pub mod Registry
pub mod History
pub mod Summary
mod Examples
