-- ===== src/Locking.antt =====
-- Two-phase locking: src/concurrency and the lock sets of src/transaction.
pub mod Modes
pub mod Queue
pub mod Transaction
pub mod Context
pub mod Manager
pub mod Deadlock
