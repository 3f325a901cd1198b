-- ===== src/Market.antt =====
-- src/modules/market: the cycle that evaluates each bot on each closed bar.
pub mod ScanActivity
pub mod Evaluation
pub mod Runner
pub mod Evaluate
pub mod Cycle
mod Tests
