-- ===== src/Deployer.antt =====
-- pons/deployer.rs: who launched what, and how many of a deployer's launches graduated.
pub mod Maps
pub mod Index
pub mod Checkpoint
pub mod Counts
mod Tests
