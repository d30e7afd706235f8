-- ===== src/Users.antt =====
-- Accounts (app/users).
pub mod Rows
pub mod Keys
pub mod Mailing
pub mod Service
pub mod Accounts
