-- ===== src/Decimal.antt =====
-- The exact decimals of decimal/.
pub mod Digits
pub mod Model
pub mod Numerals
mod Offsets
pub mod Storage
mod Examples
