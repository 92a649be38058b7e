-- ===== src/Payout.antt =====
-- stratum-apps/src/payout.rs: payout modes, the coinbase outputs that they ask for, and their
-- verification. A script is its bytes, an amount is in satoshis, and `u64` arithmetic wraps.
pub mod Script
pub mod Mode
pub mod Identity
pub mod Distribution
pub mod Agreement
pub mod Parsing
pub mod Tests
