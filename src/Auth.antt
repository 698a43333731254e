-- ===== src/Auth.antt =====
-- src/application/modules/authentication: one-time passwords and login sessions, on Redis and the
-- collections of users and sessions.
pub mod Redis
pub mod State
pub mod Services
pub mod Users
pub mod Otp
pub mod Registration
pub mod PasswordReset
pub mod ChangePassword
pub mod Sessions
pub mod Flow
