-- ===== src/Jds/Declarator.antt =====
-- pool-apps/jd-server/src/lib/job_declarator: `JobDeclarator` over any `JobValidationEngine`.
pub mod State
pub mod Clients
pub mod Declare
pub mod Custom
pub mod Responses
pub mod Authority
pub mod SingleUse
pub mod Cleanup
pub mod Reactivation
pub mod Flow
pub mod Tests
