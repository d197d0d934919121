-- ===== src/Auth.antt =====
-- Operator identity (auth/): the throttle of password attempts.
pub mod Throttle
pub mod Window
pub mod Passwords
pub mod Hashes
pub mod Users
pub mod Accounts
pub mod Sessions
pub mod Tokens
pub mod Changes
pub mod Registration
pub mod Attempts
pub mod Example
mod Tests
