-- ===== src/Crypto/Interface.antt =====
-- What the services rely on: the operations of CryptoService, and their laws. A draw is the
-- number of a read from the random source, which `encrypt`, `hash` and `generate_kdf_salt` make.
use my_account_controller.Common.{ℕ, ◌≡◌, Bool, true, Option, some, Text, length}
use my_account_controller.Crypto.Encoding.{Bytes, to_well_formed}

pub record CryptoService : Type 0 where
  pub generate_kdf_salt : ℕ → Text
  pub hash_master_password : ℕ → Text → Text
  pub verify_master_password : Text → Text → Bool
  pub derive_encryption_key : Text → Text → Bytes
  -- `none` is an exception of the cipher.
  pub encrypt : ℕ → Text → Bytes → Option Text
  pub decrypt : Text → Bytes → Option Text
  pub verify-hash :
      (draw : ℕ) (password : Text)
      → verify_master_password password (hash_master_password draw password) ≡ true
  pub length-derive : (password salt : Text) → length (derive_encryption_key password salt) ≡ 32
  pub decrypt-encrypt :
      (draw : ℕ) (plaintext : Text) (key : Bytes)
      → length key ≡ 32
      → (payload : Text) × (encrypt draw plaintext key ≡ some payload)
        × (decrypt payload key ≡ some (to_well_formed plaintext))
  pub decrypt_well_formed :
      (payload : Text) (key : Bytes) {plaintext : Text}
      → decrypt payload key ≡ some plaintext
      → to_well_formed plaintext ≡ plaintext
