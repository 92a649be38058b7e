-- ===== src/GridPool.antt =====
-- The client of the GridPool node, pool-apps/pool/src/lib/gridpool.rs.
pub mod Network
pub mod Client
pub mod Outputs
pub mod Fee
pub mod Time
pub mod Pulse
pub mod Telemetry
pub mod Address
pub mod Refresh
pub mod Sample
pub mod Tests
