-- ===== src/Decision.antt =====
-- src/modules/decision: recording a proposal, its risk decision and its reservation.
pub mod Reservation
pub mod Service
mod Tests
