-- ===== src/Tests.antt =====
-- Tests and examples: the theorems at concrete inputs.
pub mod Data
pub mod Controllers
pub mod Ledgers
pub mod Engines
pub mod Stores
pub mod Recoveries
pub mod Databases
pub mod Snapshots
pub mod Commits
