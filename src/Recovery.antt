-- ===== src/Recovery.antt =====
-- The write-ahead log and recovery of src/recovery.
pub mod LogRecord
pub mod LogManager
pub mod RecoveryManager
mod Tests
