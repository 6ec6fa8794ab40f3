-- ===== src/Expression.antt =====
-- The condition and value language of expression/.
pub mod Model
pub mod Operators
pub mod Types
pub mod Values
pub mod Evaluation
pub mod Fitting
pub mod Applied
pub mod Results
pub mod Soundness
pub mod Agreement
pub mod Defects
mod Examples
