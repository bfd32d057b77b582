-- ===== src/Crypto/Service.antt =====
-- common/crypto/crypto.service.ts: the service that the others are given. Its theorems fill the
-- interface's laws.
use my_account_controller.Common.{ℕ, ◌≡◌, true, Text, length}
use my_account_controller.Crypto.Interface.{CryptoService}
use my_account_controller.Crypto.Aes.{Node, encrypt, decrypt}
use my_account_controller.Crypto.Aes.Roundtrip.{decrypt-encrypt, decrypt_well_formed}
use my_account_controller.Crypto.Kdf.{
  Argon2, generate_kdf_salt, hash_master_password, verify_master_password, derive_encryption_key,
  argon2id_options,
}

module _ (node : Node) (argon2 : Argon2) where
  -- A password verifies against its own hash.
  pub verify-hash :
      (draw : ℕ) (password : Text)
      → verify_master_password node argon2 password (hash_master_password node argon2 draw password)
        ≡ true
  unfolding verify_master_password hash_master_password
  verify-hash draw password = argon2.verify-hash argon2id_options draw password

  -- Every derived key has the 32 bytes that AES-256 wants.
  pub length-derive :
      (password salt : Text) → length (derive_encryption_key node argon2 password salt) ≡ 32
  unfolding derive_encryption_key
  length-derive password salt =
      argon2.length-raw argon2id_options (node.base64_decode salt) 32 password

  abbrev pub crypto_service : CryptoService
  crypto_service = record {
    generate_kdf_salt = generate_kdf_salt node argon2;
    hash_master_password = hash_master_password node argon2;
    verify_master_password = verify_master_password node argon2;
    derive_encryption_key = derive_encryption_key node argon2;
    encrypt = encrypt node;
    decrypt = decrypt node;
    verify-hash = verify-hash;
    length-derive = length-derive;
    decrypt-encrypt = decrypt-encrypt node;
    decrypt_well_formed = decrypt_well_formed node;
  }
