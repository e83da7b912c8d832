-- ===== src/Kv.antt =====
-- states/kv: the key-value stores that hold the metadata, etcd and TiKV.
pub mod Client
pub mod Memory
pub mod Paths
pub mod Etcd
pub mod Backup
pub mod Restore
pub mod Tikv
pub mod Audit
mod Tests
mod BackupTests
mod RestoreTests
mod TikvTests
