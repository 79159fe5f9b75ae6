-- ===== src/Api/Reads.antt =====
-- What is read after a write.
pub mod Unmoved
pub mod Updated
pub mod Answers
pub mod Policy
pub mod History
