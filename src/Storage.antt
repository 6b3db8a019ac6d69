-- ===== src/Storage.antt =====
-- The storage layer: src/storage.
pub mod Page
pub mod DiskManager
pub mod TablePage
mod Tests
