-- ===== src/Burst.antt =====
-- trade/burst.rs and the nonces of trade/wallet.rs: a burst of signed transactions.
pub mod Outcome
pub mod Classes
pub mod Nonces
pub mod Sends
mod Tests
