-- ===== src/Lib.antt =====
-- Storage, concurrency, types, recovery and security of LatticeDB (src/buffer, src/storage,
-- src/concurrency, src/transaction, src/index, src/compression, src/types, src/recovery,
-- src/security and src/catalog/table_heap.cpp of the repository).
--
-- How the parts interact: a thread that wants a page calls the buffer pool, which keeps pages in
-- frames, asks a replacer which frame to reuse, and reads and writes pages through the disk manager.
-- A transaction takes locks on tables and rows from the lock manager before it reads or writes. The
-- compression engine shrinks the bytes of a page with one of its algorithms.
-- A table is a heap of tuples, kept in memory and copied to its first page; a tuple is a list of
-- values and their bytes. Changes are logged by the log manager, and recovery reads the log again.
-- The security manager answers who may do what.
--
-- Files:
-- - Prelude: Boolean tests, lists and maps over native numbers, bytes, and `Outcome`, the result of
--   code that takes a mutex or follows a pointer.
-- - Storage/Page: `Page` and `PageGuard` of src/storage/page.h.
-- - Storage/DiskManager: `DiskManager` of src/storage/disk_manager.cpp; the file is a function from
--   offsets to bytes.
-- - Buffer/Replacer: the interface `Replacer` of src/buffer/replacer.h; Buffer/LruReplacer and
--   Buffer/ClockReplacer are its two implementations in src/buffer/replacer.cpp.
-- - Buffer/BufferPool: `BufferPoolManager` of src/buffer/buffer_pool_manager.cpp, over any replacer.
--   Its children state when a pool is consistent (Invariant), what a fetch does (Fetch), histories
--   of requests (Steps), what a flush does (Eviction), and the pool that
--   the constructor builds (LruPool).
-- - Locking/Context: `TransactionContext` of src/transaction/transaction.cpp.
-- - Locking/Modes, Locking/Queue, Locking/Transaction, Locking/Manager: `LockManager` of
--   src/concurrency/lock_manager.cpp and the lock sets of src/transaction/transaction.h. A thread
--   that waits is a `Wait`; an interleaving is a list of events.
-- - Storage/TablePage: `TablePage` of src/storage/table_page.cpp, over the bytes of a page; Access has
--   its operations with the bounds of the page.
-- - Index/Entries, Index/LeafPage, Index/InternalPage: the pages of the B+ tree in
--   src/index/b_plus_tree_page.cpp.
-- - Compression/Algorithm, Compression/Rle, Compression/Engine: the codecs and `CompressionEngine`
--   of src/compression/compression_engine.cpp.
-- - Locking/Deadlock: the waits-for graph, `has_cycle` and `run_cycle_detection` of
--   src/concurrency/lock_manager.cpp. Walks holds the cycles of a graph, Correct and Detection the
--   search against them.
-- - Types/Value: `Value` of src/types/value.cpp, with Bytes (`serialize`, `deserialize`), Compare
--   (`compare`, `operator==`, `hash`) and Cast (`cast_to`, `to_string`); Held and Payload are about
--   memory that holds a value. Doubles are their 64 bits; what the platform does with them is a record of functions.
-- - Types/Tuple: `Tuple` of src/types/tuple.cpp.
-- - Catalog/TableHeap: `TableHeap` and `TableIterator` of src/catalog/table_heap.cpp; View is the
--   table as a partial map from slots to tuples. A fetch of the heap's page is
--   taken from a map of pages, apart from the buffer pool's own model.
-- - Catalog/Constraints: `ConstraintManager` of src/catalog/constraint_manager.cpp; Keys and History are the
--   keys that it records, Insert what `validate_insert` answers.
-- - Recovery/LogRecord, Recovery/LogManager, Recovery/RecoveryManager: src/recovery/log_manager.cpp
--   and src/recovery/recovery_manager.cpp. The file is a list of bytes. Whether
--   bytes are those of a `Value` that may be copied is a parameter.
-- - Security/Passwords, Security/Accounts, Security/Manager: `PasswordManager` and `SecurityManager` of
--   src/security/security_manager.cpp; salts, session tokens and the time are arguments.
--
-- Numbers of the code are natural numbers with their wrap-around written out where the code can reach
-- it. Loops are structural recursion; the run-length encoder runs on as much fuel as it has bytes,
-- and each of its rounds takes at least one byte. The clock's hand makes at most one turn.
-- The search for a cycle is given as many nested calls as the graph has entries and edges, and every
-- call visits a new transaction. The undo loop is given a round for each active transaction and one
-- more; the reader of the log file takes four bytes at least in each round.
--
-- Not modelled: threads inside one call, failures of the file stream, statistics in floating point,
-- the audit log and the encryption stubs, and the parts of the repository above these layers (the
-- catalog's names and indexes, query processing, network).
pub mod Prelude
pub mod Storage
pub mod Types
pub mod Index
pub mod Buffer
pub mod Locking
pub mod Compression
pub mod Catalog
pub mod Security
pub mod Recovery
