-- ===== src/ModuleCapability.antt =====
-- The capability disclosures of modules, modulecapability/.
pub mod Summary
mod Composition
mod Examples
