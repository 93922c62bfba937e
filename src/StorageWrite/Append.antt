-- ===== src/StorageWrite/Append.antt =====
-- AppendRows: `Append` of internal/storagewrite/application/service.go.
pub mod Checks
pub mod Steps
pub mod Ledger
pub mod Refusals
pub mod Untouched
pub mod Consistency
pub mod Sequence
