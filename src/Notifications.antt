-- ===== src/Notifications.antt =====
-- src/modules/notifications: which alerts stand, and their delivery over three channels.
pub mod Settings
pub mod Alerts
pub mod Observed
pub mod Delivery
pub mod Reopened
mod Tests
