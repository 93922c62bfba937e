-- ===== src/StorageRead.antt =====
-- The Storage Read service: internal/storageread.
pub mod Domain
pub mod Contracts
pub mod Service
pub mod Rows
pub mod Admission
pub mod Lifecycle
pub mod Requests
pub mod Session
mod Examples
