-- ===== src/Storage/Restore.antt =====
-- What is shown of the snapshots of storage/rocks.rs: restoring one brings back exactly the state of
-- the transaction that it was taken of, whatever was done in between.
pub mod Undo
pub mod Changes
pub mod Views
pub mod Gives
pub mod Others
pub mod Writes
pub mod Scans
pub mod RewindBatch
pub mod Rewinds
pub mod Operations
pub mod Commits
pub mod SnapshotKeys
pub mod Steps
pub mod Tracked
pub mod Isolated
pub mod Exact
pub mod Returns
