-- ===== src/Sync.antt =====
-- kernel/rust/src/sync: locks, waiting lists, promises and queues.
pub mod BaseLocks
pub mod NoInterruptionsLocks
pub mod Promise
pub mod Queue
