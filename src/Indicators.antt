-- ===== src/Indicators.antt =====
-- src/modules/indicators, and the set of indicators that src/modules/market/market-context.ts builds.
pub mod Number
pub mod Technical
pub mod Context
pub mod Tests
