-- ===== src/Contracts.antt =====
-- packages/contracts/python/plimsoll_contracts: the shapes that clients see.
pub mod Errors
pub mod Updates
pub mod Projects
pub mod Pools
pub mod Tests
pub mod Validation
pub mod Scripts
pub mod Credentials
