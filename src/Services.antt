-- ===== src/Services.antt =====
-- internal/controller/services.go: the services that a run waits for.
pub mod World
pub mod Ensure
pub mod Failures
pub mod Healthy
pub mod Looked
pub mod Ready
mod Samples
