-- ===== src/Saga.antt =====
-- ledger/saga.rs: the undo ledger and the staging queue.
pub mod Ledger
pub mod Staging
pub mod Recovery
