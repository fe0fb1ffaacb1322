-- ===== src/Review.antt =====
-- internal/review: the independent review of one unit of work.
pub mod Types
pub mod Independence
pub mod Policy
pub mod Lines
pub mod Parse
pub mod Engine
pub mod Order
pub mod Patterns
pub mod Block
pub mod FailClosed
pub mod Withholds
pub mod Examples
