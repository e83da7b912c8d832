-- ===== src/Binlog.antt =====
-- storage/binlog/v1: the event format of binlog files.
pub mod Bytes
pub mod Header
pub mod EventData
pub mod Descriptor
pub mod Reader
mod Tests
