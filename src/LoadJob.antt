-- ===== src/LoadJob.antt =====
-- Load jobs: internal/loadjob.
pub mod Domain
pub mod Sources
pub mod Terminal
pub mod Submission
mod Examples
