-- ===== src/Bots.antt =====
-- src/modules/bots: the bot's row, its templates, its power control, and the views derived from it.
pub mod Row
pub mod Templates
pub mod Control
pub mod AdaptiveRisk
pub mod Survival
pub mod Death
mod Tests
