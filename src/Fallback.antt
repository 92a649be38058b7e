-- ===== src/Fallback.antt =====
-- stratum-apps/src/fallback_coordinator.rs: the coordinator that waits for tasks to finish.
pub mod Coordinator
pub mod Wakeup
pub mod Tests
