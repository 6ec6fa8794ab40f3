-- ===== src/Worker.antt =====
-- The background workers of worker/.
pub mod Control
pub mod Drain
pub mod Waiting
pub mod Shutdown
pub mod Retry
pub mod Backoff
pub mod Dispatch
pub mod Slots
pub mod Closing
pub mod Handled
pub mod Broker
pub mod Wakeups
pub mod Fairness
mod Examples
