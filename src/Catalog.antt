-- ===== src/Catalog.antt =====
-- Canonical metadata and its rules: internal/domain.
pub mod Failure
pub mod Casing
pub mod Names
pub mod Fields
pub mod Literal
pub mod Decimal
pub mod Schema
pub mod Evolution
pub mod Job
mod Examples
