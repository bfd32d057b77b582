-- ===== src/Crypto.antt =====
-- Encryption and key derivation (apps/api/src/common/crypto): what the services rely on, and the
-- implementation of it over the primitives of Node and argon2.
mod Interface
pub mod Encoding
pub mod Aes
pub mod Kdf
pub mod Service
pub mod TokenKey
pub use Interface.*
