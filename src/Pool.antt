-- ===== src/Pool.antt =====
-- The channel manager of the pool, pool-apps/pool/src/lib/channel_manager/.
pub mod Pairs
pub mod Each
pub mod Kept
pub mod Channels
pub mod State
pub mod Shares
pub mod Submit
pub mod Open
pub mod Templates
pub mod PrevHash
pub mod Update
pub mod FeeJobs
pub mod History
pub mod Tests
