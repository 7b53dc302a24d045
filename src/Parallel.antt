-- ===== src/Parallel.antt =====
-- internal/compiler/parallel.go, internal/controller/parallel.go, services.go: runs with workers.
pub mod Workers
pub mod Shards
pub mod Numbering
pub mod World
pub mod Creation
pub mod Round
pub mod Loop
pub mod Pass
pub mod Verdicts
pub mod Frames
pub mod Creations
pub mod Rounds
pub mod Sweeps
pub mod Persisted
pub mod Endings
pub mod Ended
mod Samples
