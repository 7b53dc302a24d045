-- ===== src/Trigger.antt =====
-- internal/controller: the gates, the selectors and the shared informers of TestTriggers.
pub mod Gate
pub mod Informers
pub mod Counts
pub mod Watched
pub mod Selector
pub mod Arrivals
pub mod Waiting
pub mod Pending
pub mod History
