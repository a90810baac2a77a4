-- ===== src/Research.antt =====
-- research.rs: the modeled portfolio of a research run.
pub mod Profile
pub mod Portfolio
pub mod Methods
pub mod Refresh
pub mod Outcomes
pub mod Books
pub mod Calls
pub mod Validity
pub mod Latch
pub mod Cash
mod Tests
