-- ===== src/Replay.antt =====
-- replay.rs: what other rules or another entry second would have made of the launches that were recorded.
pub mod Launches
pub mod Reserves
mod Tests
