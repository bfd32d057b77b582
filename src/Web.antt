-- ===== src/Web.antt =====
-- The web client (apps/web/src): its library and the logic of its pages.
pub mod Api
pub mod Crypto
pub mod Storage
pub mod Browser
pub mod Device
pub mod Proxy
pub mod Login
pub mod RuleForm
pub mod Settings
pub mod MailRules
pub mod Accounts
pub mod Navigation
pub mod Review
