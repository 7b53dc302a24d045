-- ===== src/Controller.antt =====
-- internal/controller: the reconciler of TestRuns and the decisions it is made of.
pub mod Phases
pub mod Concurrency
pub mod Queue
pub mod Infra
pub mod Derivation
pub mod Stages
pub mod Course
pub mod State
pub mod World
pub mod Setup
pub mod Inspect
pub mod Reconcile
pub mod Progress
pub mod Starting
pub mod Running
pub mod Lifecycle
pub mod Ending
pub mod Gauge
pub mod Samples
pub mod Witnesses
