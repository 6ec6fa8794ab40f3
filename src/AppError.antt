-- ===== src/AppError.antt =====
-- The application errors of apperror/.
pub mod Errors
pub mod Codes
mod Examples
