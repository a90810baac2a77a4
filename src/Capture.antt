-- ===== src/Capture.antt =====
-- research.rs: the capture of a research run, its recorder and its verification.
pub mod Format
pub mod Recorder
pub mod Scan
pub mod Sizes
pub mod Lines
pub mod Sound
pub mod Appends
pub mod RoundTrip
pub mod Tamper
mod Tests
