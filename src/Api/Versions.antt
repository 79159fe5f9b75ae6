-- ===== src/Api/Versions.antt =====
-- Optimistic locking of performance tests, over sequences of requests.
pub mod Rows
pub mod Keyed
pub mod Stable
pub mod Documents
pub mod Requests
pub mod Lock
pub mod Updates
