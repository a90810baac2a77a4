-- ===== src/Outcomes.antt =====
-- outcomes.rs: the summary of the outcome log.
pub mod Summary
pub mod Balance
pub mod Kinds
pub mod Totals
mod Tests
