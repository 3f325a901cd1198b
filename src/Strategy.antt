-- ===== src/Strategy.antt =====
-- src/modules/strategy: the size of a purchase.
pub mod PositionSizing
pub mod Trend
mod Tests
