-- ===== src/Wal.antt =====
-- wal/utility and wal/adaptor: reading the write-ahead log of a channel in time tick order.
pub mod Message
pub mod Typeutil
pub mod ReorderBuffer
pub mod TxnBuffer
pub mod PendingQueue
pub mod Scanner
pub mod Reference
mod Samples
mod Tests
mod TxnTests
mod ScannerTests
