-- ===== src/Tests.antt =====
-- Concrete values, runs on them, and the applications of the theorems to them.
pub mod World
pub mod Vault
pub mod Pure
pub mod Runs
pub mod Sealed
pub mod Shown
pub mod Interleaved
pub mod Crowds
pub mod Refusals
