-- ===== src/Storage.antt =====
-- storage: primary keys, deletion records, and the binlog files that hold them.
pub mod PrimaryKey
pub mod Ids
pub mod PrimaryKeys
pub mod DeltaData
pub mod Batches
pub mod Tasks
mod Tests
mod ScanTests
