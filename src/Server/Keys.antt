-- ===== src/Server/Keys.antt =====
-- The services and the keys of the server.
pub mod Accounts
pub mod Auth
pub mod Devices
pub mod Mail
pub mod Scans
