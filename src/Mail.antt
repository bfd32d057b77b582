-- ===== src/Mail.antt =====
-- Mail accounts, rules, candidates and providers (apps/api/src/mail, email-accounts, notifications).
pub mod Matcher
pub mod Provider
pub mod Gmail
pub mod Rules
pub mod Candidates
pub mod EmailAccounts
pub mod Controllers
