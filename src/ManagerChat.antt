-- ===== src/ManagerChat.antt =====
-- src/modules/manager-chat: changes that a chat prepares and an administrator confirms.
pub mod Actions
pub mod Confirm
pub mod PowerIntents
mod Tests
