-- ===== src/Book.antt =====
-- research.rs: the portfolio book of a research run, kept in a file.
pub mod Defs
pub mod Durable
mod Tests
