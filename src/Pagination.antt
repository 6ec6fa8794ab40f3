-- ===== src/Pagination.antt =====
-- The cursor and numbered pages of pagination/.
pub mod Model
pub mod Cursors
pub mod Walk
pub mod Numbers
mod Examples
