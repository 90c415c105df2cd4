-- ===== src/Storage.antt =====
-- internal/storage: the commands, the map they change and the write-ahead log.
pub mod Command
pub mod MemStore
pub mod Wal
mod Tests
mod StoreTests
pub mod Snapshot
pub mod Store
