-- ===== src/Jds.antt =====
-- The Job Declarator Server (pool-apps/jd-server) and the part of bitcoin-core-sv2 that validates
-- its jobs.
pub mod Timeouts
pub mod Tokens
pub mod Bitcoin
pub mod Sample
pub mod Mempool
pub mod Validator
pub mod Engine
pub mod Declarator
