-- ===== src/Transactions.antt =====
-- database.include/transaction.c and inline.h, utils/utils.h: transactions of one handle, and of
-- several in Sharing, in the default configuration (locks in the nodes and indexes,
-- SIMPLE_SERVICE_THREAD, FAST_COMMIT).
pub mod Memory
pub mod State
pub mod Commit
pub mod Undo
pub mod Runs
pub mod Rollback
pub mod Locking
pub mod Outcomes
pub mod Commits
pub mod Semaphores
pub mod Sharing
pub mod Handles
