-- ===== src/Auth.antt =====
-- src/modules/auth: the login throttle, the sessions and the roles.
pub mod LoginThrottle
pub mod Session
mod Tests
