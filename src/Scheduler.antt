-- ===== src/Scheduler.antt =====
-- internal/scheduler/scheduler.go: the runs that schedules start.
pub mod Evaluate
pub mod Instants
pub mod Fired
mod Samples
