-- ===== src/Composite.antt =====
-- internal/controller/composite.go: the reconciler of composite runs, whose steps are child runs.
pub mod Children
pub mod Steps
pub mod World
pub mod Attempts
pub mod Round
pub mod Walk
pub mod Skips
mod Samples
pub mod Settled
pub mod Ended
pub mod Sources
pub mod Course
pub mod Kept
pub mod StepVerdicts
pub mod LatestTry
pub mod Retries
pub mod Capacity
