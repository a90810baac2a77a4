-- ===== src/Decision.antt =====
-- engine.rs: whether a launch is entered and when a position is left.
pub mod Rules
pub mod Decide
pub mod Rungs
pub mod Gates
pub mod Exit
pub mod Fraction
mod Tests
