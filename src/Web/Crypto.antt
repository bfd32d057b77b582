-- ===== src/Web/Crypto.antt =====
-- apps/web/src/lib/webauthn-crypto.ts: the master password wrapped under a key that the secret of
-- an authenticator gives.
use my_account_controller.Common.{
  ℕ, ◌<◌, ◌≡◌, refl, arith, Option, none, some, List, [], ◌∷◌, map, Text, codes, nat_eq,
  if◌then◌else◌,
}
use Prim.Native.Nat.{◌%◌}
use my_account_controller.Crypto.Encoding.{Bytes, to_well_formed}

abbrev pub AreBytes : List ℕ → Type 0
AreBytes [] = Unit
AreBytes (b ∷ bs) = (b < 256) × AreBytes bs

-- `TextDecoder` takes off a byte order mark.
abbrev pub without_mark : Text → Text
without_mark [] = []
without_mark (c ∷ t) = if nat_eq c 0xFEFF then t else c ∷ t

-- `crypto.subtle`, `TextEncoder`, `TextDecoder`, `btoa` and `atob`. A `none` is an exception. The
-- key of `derive_key` stands for `importKey` and `deriveKey` with HKDF and SHA-256.
pub record WebCrypto : Type 0 where
  pub digest : Bytes → Bytes
  pub derive_key : Bytes → Bytes → Bytes → Bytes
  pub random_values : ℕ → ℕ → Bytes
  pub encrypt : Bytes → Bytes → Bytes → Bytes
  pub decrypt : Bytes → Bytes → Bytes → Option Bytes
  pub text_encode : Text → Bytes
  pub text_decode : Bytes → Text
  pub btoa : Text → Text
  pub atob : Text → Option Text
  pub random_values_bytes : (draw n : ℕ) → AreBytes (random_values draw n)
  pub text_encode_bytes : (t : Text) → AreBytes (text_encode t)
  pub encrypt_bytes : (key iv plain : Bytes) → AreBytes plain → AreBytes (encrypt key iv plain)
  pub decrypt-encrypt :
      (key iv plain : Bytes) → AreBytes plain → decrypt key iv (encrypt key iv plain) ≡ some plain
  pub text_decode-encode :
      (t : Text) → text_decode (text_encode t) ≡ without_mark (to_well_formed t)
  pub atob-btoa : (s : Text) → AreBytes s → atob (btoa s) ≡ some s

-- What is stored of a wrapped password, in base64.
pub record Wrapped : Type 0 where
  pub iv : Text
  pub ciphertext : Text

module _ (web : WebCrypto) where
  unfoldable pub hkdf_info : Bytes
  hkdf_info = web.text_encode (codes "account-manager:webauthn-master-password-wrap:v1")

  unfoldable pub hkdf_salt : Bytes
  hkdf_salt = web.text_encode (codes "account-manager:webauthn-prf-salt:v1")

  unfoldable pub get_prf_eval_salt : Bytes
  get_prf_eval_salt = web.digest hkdf_salt

  unfoldable pub derive_wrapping_key : Bytes → Bytes
  derive_wrapping_key prf_output = web.derive_key prf_output hkdf_salt hkdf_info

  -- `btoa(String.fromCharCode(...bytes))`: a code unit for each byte
  unfoldable pub to_base64 : Bytes → Text
  to_base64 buffer = web.btoa buffer

  -- A `Uint8Array` keeps a code unit modulo 256.
  unfoldable pub from_base64 : Text → Option Bytes
  from_base64 base64 = elim (web.atob base64) [
    | none ↦ none
    | some binary ↦ some (map (λ c. c % 256) binary)
  ]

  unfoldable pub wrap_master_password : ℕ → Bytes → Text → Wrapped
  wrap_master_password draw prf_output master_password =
      let key = derive_wrapping_key prf_output in
      let iv = web.random_values draw 12 in
      let ciphertext = web.encrypt key iv (web.text_encode master_password) in
      record { iv = to_base64 iv; ciphertext = to_base64 ciphertext }

  unfoldable pub unwrap_master_password : Bytes → Wrapped → Option Text
  unwrap_master_password prf_output wrapped =
      let key = derive_wrapping_key prf_output in
      elim (from_base64 wrapped.iv) [
        | none ↦ none
        | some iv ↦ elim (from_base64 wrapped.ciphertext) [
          | none ↦ none
          | some ciphertext ↦ elim (web.decrypt key iv ciphertext) [
            | none ↦ none
            | some plain ↦ some (web.text_decode plain)
          ]
        ]
      ]

  map_bytes : (bs : Bytes) → AreBytes bs → map (λ c. c % 256) bs ≡ bs
  map_bytes [] h = refl
  map_bytes (b ∷ bs) (small, rest) = ground (arith, map_bytes bs rest)

  -- Bytes that were written in base64 are read back.
  from_base64-to : (bs : Bytes) → AreBytes bs → from_base64 (to_base64 bs) ≡ some bs
  unfolding from_base64 to_base64
  from_base64-to bs h = ground (arith, web.atob-btoa bs h, map_bytes bs h)

  -- A wrapped password is unwrapped under the same secret to what it was, but for lone surrogates
  -- and a byte order mark at its front.
  pub unwrap-wrap_master_password :
      (draw : ℕ) (prf_output : Bytes) (master_password : Text)
      → unwrap_master_password prf_output (wrap_master_password draw prf_output master_password)
        ≡ some (without_mark (to_well_formed master_password))
  unfolding unwrap_master_password wrap_master_password
  unwrap-wrap_master_password draw prf_output master_password =
      let key = derive_wrapping_key prf_output in
      let iv = web.random_values draw 12 in
      let plain = web.text_encode master_password in
      let bytes = web.text_encode_bytes master_password in
      ground (
        arith,
        from_base64-to iv (web.random_values_bytes draw 12),
        from_base64-to (web.encrypt key iv plain) (web.encrypt_bytes key iv plain bytes),
        web.decrypt-encrypt key iv plain bytes,
        web.text_decode-encode master_password,
      )
