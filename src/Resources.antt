-- ===== src/Resources.antt =====
-- src/modules/resources: the macro-event guard.
pub mod MacroGuard
mod Tests
