-- ===== src/Scheduler.antt =====
-- trade/scheduler.rs: deadlines of entries, and the priority queue for the one right to execute.
pub mod Deadline
pub mod Queue
pub mod Priority
pub mod Ownership
mod Tests
