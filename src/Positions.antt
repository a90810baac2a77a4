-- ===== src/Positions.antt =====
-- trade/positions.rs: what is held of each token, what it cost, and what was realised.
pub mod Record
pub mod Exits
pub mod Exact
pub mod Conserve
pub mod Realized
pub mod Store
pub mod Overhead
pub mod Rules
pub mod Ladder
pub mod Owned
pub mod Decimal
pub mod Whole
mod Tests
