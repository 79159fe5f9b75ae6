-- ===== src/Repositories.antt =====
-- apps/api/plimsoll_api/repositories: the SQL statements, each as an action on the database.
pub mod Audit
pub mod Projects
pub mod Pools
pub mod PerformanceTests
pub mod TargetPolicies
pub mod RefreshTokens
pub mod Credentials
pub mod Keeps
pub mod Confined
