-- ===== src/Recovery.antt =====
-- trade/journal.rs: what `TxJournal::recover` makes of pending operations after a restart.
pub mod Fills
pub mod World
pub mod Receipts
pub mod Settle
pub mod Entry
pub mod Exit
pub mod Command
pub mod Recover
pub mod Kept
pub mod EntryOnce
pub mod Once
pub mod Attempts
pub mod ExitOnce
pub mod ExitSteps
pub mod ExitAttempts
pub mod Known
mod Tests
