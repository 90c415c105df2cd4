-- ===== src/Nemesis.antt =====
-- internal/nemesis: the checker of recorded histories.
pub mod Checker
pub mod Execution
pub mod Timing
pub mod Kept
pub mod Soundness
pub mod Deletes
mod Tests
