-- ===== src/Tests.antt =====
-- Runs on concrete data, and the theorems applied to them.
pub mod StorageRuns
pub mod AllocatorRuns
pub mod PersistenceRuns
pub mod QueueRuns
mod StartupRuns
mod NodeRuns
pub mod UtilsRuns
pub mod TransactionRuns
pub mod ServiceRuns
mod SharingRuns
