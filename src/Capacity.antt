-- ===== src/Capacity.antt =====
-- The admission controller of capacity/.
pub mod Model
pub mod Admission
pub mod Limits
pub mod Controller
pub mod InFlight
pub mod Guards
pub mod Ledger
pub mod Caps
pub mod Bounds
pub mod Leases
pub mod History
pub mod States
pub mod Calls
mod Examples
