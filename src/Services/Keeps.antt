-- ===== src/Services/Keeps.antt =====
-- Every service keeps an invariant that the repositories keep.
pub mod Simple
pub mod PerformanceTests
