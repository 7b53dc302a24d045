-- ===== src/Retention.antt =====
-- internal/retention/retention.go, internal/store/partition.go: old runs and their objects are removed.
pub mod Pass
pub mod Removed
pub mod Kept
mod Samples
