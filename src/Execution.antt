-- ===== src/Execution.antt =====
-- src/modules/execution: the queue of approved proposals, and the gate before the broker.
pub mod Gate
pub mod Worker
mod Tests
