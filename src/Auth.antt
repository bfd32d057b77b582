-- ===== src/Auth.antt =====
-- Login, unlocking and trusted devices (apps/api/src/auth).
pub mod Session
pub mod KeyStore
pub mod Guards
pub mod Google
pub mod Service
pub mod WebAuthn
pub mod Controller
