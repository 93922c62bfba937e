-- ===== src/StorageWrite.antt =====
-- The Storage Write stream ledger: internal/storagewrite.
pub mod Names
pub mod Domain
pub mod Ports
pub mod Service
pub mod Invariant
pub mod Append
pub mod Registry
pub mod Handlers
pub mod Created
pub mod Finalized
pub mod Commit
mod Examples
