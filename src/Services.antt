-- ===== src/Services.antt =====
-- apps/api/plimsoll_api/services: the operations that the routers call.
pub mod Audit
pub mod Projects
pub mod Pools
pub mod PerformanceTests
pub mod TargetPolicies
pub mod Credentials
pub mod Refresh
pub mod Authentication
pub mod Keeps
