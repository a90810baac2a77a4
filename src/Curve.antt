-- ===== src/Curve.antt =====
-- pons/curve.rs and pons/tax.rs: what a buy or a sell on the curve pays and gets.
pub mod Tax
pub mod Quote
pub mod Exact
pub mod Fair
pub mod Buy
mod Tests
