-- ===== src/Security.antt =====
-- Accounts' sessions (app/security, app/core/deps.py): refresh and access tokens.
pub mod State
pub mod Tokens
pub mod Service
pub mod Logout
pub mod Guards
