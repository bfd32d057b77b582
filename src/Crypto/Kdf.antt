-- ===== src/Crypto/Kdf.antt =====
-- common/crypto/kdf.util.ts: salts, password hashes and keys, over argon2 and Node's buffers.
use my_account_controller.Common.{ℕ, ◌≡◌, Bool, true, Text, length}
use my_account_controller.Crypto.Encoding.{Bytes}
use my_account_controller.Crypto.Aes.{Node}

pub data Variant : Type 0 where
  argon2d argon2i argon2id : Variant

pub record Options : Type 0 where
  pub variant : Variant
  pub memory_cost : ℕ
  pub time_cost : ℕ
  pub parallelism : ℕ

-- The package argon2: `hash` draws a salt of its own and writes it into the result; `raw` is
-- `hash` with `raw: true`, a given salt and a given length.
pub record Argon2 : Type 0 where
  pub hash : Options → ℕ → Text → Text
  pub verify : Text → Text → Bool
  pub raw : Options → Bytes → ℕ → Text → Bytes
  pub verify-hash :
      (options : Options) (draw : ℕ) (password : Text)
      → verify (hash options draw password) password ≡ true
  pub length-raw :
      (options : Options) (salt : Bytes) (n : ℕ) (password : Text)
      → length (raw options salt n password) ≡ n

abbrev pub argon2id_options : Options
argon2id_options = record {
  variant = argon2id;
  memory_cost = 65536;
  time_cost = 3;
  parallelism = 4;
}

abbrev pub aes_256_key_length : ℕ
aes_256_key_length = 32

module _ (node : Node) (argon2 : Argon2) where
  unfoldable pub generate_kdf_salt : ℕ → Text
  generate_kdf_salt draw = node.base64_encode (node.random_bytes draw 16)

  unfoldable pub hash_master_password : ℕ → Text → Text
  hash_master_password draw password = argon2.hash argon2id_options draw password

  unfoldable pub verify_master_password : Text → Text → Bool
  verify_master_password password hash = argon2.verify hash password

  unfoldable pub derive_encryption_key : Text → Text → Bytes
  derive_encryption_key password kdf_salt_base64 =
      let salt = node.base64_decode kdf_salt_base64 in
      argon2.raw argon2id_options salt aes_256_key_length password
