-- ===== src/Clock.antt =====
-- pons/clock.rs: the clock of the chain, from the headers that come in.
pub mod State
pub mod Boundary
pub mod Projection
mod Tests
