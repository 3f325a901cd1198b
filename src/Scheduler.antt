-- ===== src/Scheduler.antt =====
-- src/modules/scheduler: the durable runs of scheduled tasks and their leases.
pub mod Lease
pub mod Retry
pub mod Policy
pub mod Task
mod Tests
