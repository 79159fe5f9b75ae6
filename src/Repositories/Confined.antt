-- ===== src/Repositories/Confined.antt =====
-- The statements of the repositories touch no row of another organisation.
pub mod Projects
pub mod Pools
pub mod PerformanceTests
pub mod Tokens
