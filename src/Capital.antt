-- ===== src/Capital.antt =====
-- src/modules/capital: the virtual ledger of one bot.
pub mod Policy
pub mod Fill
pub mod OperatingCost
mod Tests
