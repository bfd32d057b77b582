-- ===== src/Server/Routes.antt =====
-- The routes of the server and its keys.
pub mod Auth
pub mod Accounts
pub mod Mail
