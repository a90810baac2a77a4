-- ===== src/Journal.antt =====
-- trade/journal.rs: the journal of transactions that a wallet has signed.
pub mod Record
pub mod Store
pub mod Distinct
pub mod Recovery
pub mod Pending
mod Tests
