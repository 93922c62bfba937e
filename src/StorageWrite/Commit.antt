-- ===== src/StorageWrite/Commit.antt =====
-- BatchCommitWriteStreams: `BatchCommit` of internal/storagewrite/application/service.go.
pub mod Selection
pub mod Group
pub mod Steps
pub mod View
pub mod Success
pub mod Chosen
pub mod Response
pub mod Atomic
