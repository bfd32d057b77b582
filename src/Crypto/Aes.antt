-- ===== src/Crypto/Aes.antt =====
-- common/crypto/aes.util.ts: `encrypt` and `decrypt`, over Node's buffers and AES-256-GCM.
pub mod Roundtrip
use my_account_controller.Common.{ℕ, ◌+◌, ◌≡◌, Option, none, some, ◌++◌, Text, length, take, drop}
use my_account_controller.Crypto.Encoding.{Bytes, to_well_formed}

-- Node's functions, and what is documented of them. A buffer is the list of its bytes.
pub record Node : Type 0 where
  pub random_bytes : ℕ → ℕ → Bytes
  pub utf8_encode : Text → Bytes
  pub utf8_decode : Bytes → Text
  pub base64_encode : Bytes → Text
  pub base64_decode : Text → Bytes
  -- `createCipheriv('aes-256-gcm', key, iv)` run on a plaintext: the ciphertext and the tag, or
  -- an exception
  pub gcm_seal : Bytes → Bytes → Bytes → Option (Bytes × Bytes)
  -- `createDecipheriv` with `setAuthTag`, run on a ciphertext
  pub gcm_open : Bytes → Bytes → Bytes → Bytes → Option Bytes
  pub length-random_bytes : (draw n : ℕ) → length (random_bytes draw n) ≡ n
  pub utf8_decode-encode : (t : Text) → utf8_decode (utf8_encode t) ≡ to_well_formed t
  pub utf8_decode_well_formed : (b : Bytes) → to_well_formed (utf8_decode b) ≡ utf8_decode b
  pub base64_decode-encode : (b : Bytes) → base64_decode (base64_encode b) ≡ b
  pub gcm_open-seal :
      (key iv plain : Bytes)
      → length key ≡ 32
      → length iv ≡ 12
      → (cipher tag : Bytes) × (gcm_seal key iv plain ≡ some (cipher, tag))
        × (length tag ≡ 16)
        × (gcm_open key iv tag cipher ≡ some plain)

abbrev pub iv_length : ℕ
iv_length = 12

abbrev pub auth_tag_length : ℕ
auth_tag_length = 16

module _ (node : Node) where
  open node use {
    random_bytes, utf8_encode, utf8_decode, base64_encode, base64_decode, gcm_seal, gcm_open,
  }

  -- The stored form: base64 of the initialisation vector, the tag and the ciphertext.
  unfoldable pub framed : Bytes → Bytes × Bytes → Text
  framed iv (ciphertext, auth_tag) = base64_encode (iv ++ (auth_tag ++ ciphertext))

  unfoldable pub encrypt : ℕ → Text → Bytes → Option Text
  encrypt draw plaintext key =
      let iv = random_bytes draw iv_length in
      elim (gcm_seal key iv (utf8_encode plaintext)) [
        | none ↦ none
        | some sealed ↦ some (framed iv sealed)
      ]

  unfoldable pub decrypt : Text → Bytes → Option Text
  decrypt payload key =
      let raw = base64_decode payload in
      let iv = take iv_length raw in
      let auth_tag = take auth_tag_length (drop iv_length raw) in
      let ciphertext = drop (iv_length + auth_tag_length) raw in
      elim (gcm_open key iv auth_tag ciphertext) [
        | none ↦ none
        | some plain ↦ some (utf8_decode plain)
      ]
