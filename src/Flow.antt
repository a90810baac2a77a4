-- ===== src/Flow.antt =====
-- pons/stream.rs: the flow of buys and sells on a curve, as records that can be replayed and removed.
pub mod Keys
pub mod Ordered
pub mod Tracker
pub mod Ingest
pub mod Snapshot
pub mod Identities
pub mod Consistent
pub mod Held
pub mod Replay
pub mod Order
pub mod Rewind
pub mod Streams
pub mod Ranges
pub mod Sync
mod Tests
