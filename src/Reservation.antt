-- ===== src/Reservation.antt =====
-- run.rs: the reservation of budget and position slots that entry tasks share.
pub mod Defs
pub mod Ledger
pub mod Slots
mod Tests
