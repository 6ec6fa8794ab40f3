-- ===== src/Action.antt =====
-- The action registry of action/.
pub mod Model
pub mod Validation
pub mod Normal
pub mod Batches
pub mod Registry
pub mod Usage
mod Examples
