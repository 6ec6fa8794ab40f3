-- ===== src/RateLimit.antt =====
-- The rate limiter of ratelimit/.
pub mod Model
pub mod Capacity
pub mod Windows
pub mod EmptyKey
mod Examples
