-- ===== src/Accounts.antt =====
-- The registered accounts (apps/api/src/accounts): the vault, its backups and the generator.
pub mod Generator
pub mod Service
pub mod Backup
pub mod Controller
