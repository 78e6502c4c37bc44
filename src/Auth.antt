-- ===== src/Auth.antt =====
-- apps/api/src/auth: who a caller is.
pub mod Sessions
pub mod Redis
pub mod RateLimit
pub mod Codes
pub mod Tokens
pub mod Age
pub mod Accounts
