-- ===== src/Secrets.antt =====
-- The key ring of secrets/.
pub mod KeyRing
pub mod Rotation
pub mod Revocation
mod Examples
