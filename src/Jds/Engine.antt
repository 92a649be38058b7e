-- ===== src/Jds/Engine.antt =====
-- The validation engine of pool-apps/jd-server/src/lib/job_declarator/job_validation.
pub mod Messages
pub mod Merkle
pub mod Coinbase
pub mod State
pub mod Declare
pub mod Custom
pub mod History
pub mod Sample
pub mod Tests
