-- ===== src/Score.antt =====
-- score.rs: the points of a launch and their verdict.
pub mod Points
pub mod Launch
pub mod Bounds
mod Tests
