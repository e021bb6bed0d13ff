-- ===== src/Storage/Publish.antt =====
-- What is shown of the commit of storage/rocks.rs: it publishes the overlay of its transaction, and of
-- two transactions that wrote a key the first to commit wins.
pub mod Reads
pub mod Items
pub mod Cleanup
pub mod Commits
pub mod Returns
pub mod Rivals
pub mod ReadBack
pub mod Loop
