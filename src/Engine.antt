-- ===== src/Engine.antt =====
-- engine/mod.rs: the transaction engine.
pub mod Act
pub mod Types
pub mod Locked
pub mod Steps
pub mod Operations
pub mod Keeps
pub mod Frame
pub mod Ensures
pub mod Table
pub mod Isolation
pub mod Rewind
pub mod Recovery
pub mod Settled
pub mod Effects
