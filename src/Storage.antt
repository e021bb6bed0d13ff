-- ===== src/Storage.antt =====
-- storage/: the undo journal's records, the layout of the keys, and the store over RocksDB.
pub mod Journal
pub mod Keys
pub mod Database
pub mod Layout
pub mod Values
pub mod Rocks
pub mod Restore
pub mod Publish
