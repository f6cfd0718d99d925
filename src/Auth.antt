-- ===== src/Auth.antt =====
-- Accounts, sessions and tokens: backend/auth.
pub mod Jwt
pub mod Model
pub mod Tokens
pub mod Oauth
pub mod Passwords
pub mod Accounts
pub mod Emails
pub mod Registration
pub mod Sessions
pub mod Setup
pub mod Steps
pub mod Rows
pub mod Invariant
pub mod Requests
pub mod Access
pub mod Login
pub mod Tests
