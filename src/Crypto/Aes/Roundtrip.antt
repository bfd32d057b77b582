-- ===== src/Crypto/Aes/Roundtrip.antt =====
-- The parts of the stored form, joined and cut again (common/crypto/aes.util.ts).
use native.Mathlib.Nat.{zero-add, suc-add}
use my_account_controller.Common.{
  ℕ, zero, suc, ◌+◌, ◌≡◌, refl, some, [], ◌∷◌, ◌++◌, Text, length, take, drop, take-append,
  drop-append, subst, arith, Option-cases, inl, inr,
}
use my_account_controller.Crypto.Encoding.{Bytes, to_well_formed}
use my_account_controller.Crypto.Aes.{Node, encrypt, decrypt, framed}

take_prefix : (n : ℕ) (a b : Bytes) → length a ≡ n → take n (a ++ b) ≡ a
take_prefix n a b h = subst (λ k. take k (a ++ b) ≡ a) h (take-append a b)

drop_prefix : (n : ℕ) (a b : Bytes) → length a ≡ n → drop n (a ++ b) ≡ b
drop_prefix n a b h = subst (λ k. drop k (a ++ b) ≡ b) h (drop-append a b)

drop-drop : (m n : ℕ) (raw : Bytes) → drop (m + n) raw ≡ drop n (drop m raw)
drop-drop zero n raw = rw zero-add
drop-drop (suc m) n [] = rw suc-add (drop_nil n)
  where
    drop_nil : (n : ℕ) → ◌≡◌ {A = Bytes} [] (drop n [])
    drop_nil zero = refl
    drop_nil (suc n) = refl
drop-drop (suc m) n (b ∷ raw) = rw suc-add (drop-drop m n raw)

module _ (node : Node) where
  open node use {random_bytes, utf8_encode}

  -- With a key of 32 bytes, encryption succeeds and decryption under the same key gives the
  -- plaintext back, with lone surrogates repaired.
  pub decrypt-encrypt :
      (draw : ℕ) (plaintext : Text) (key : Bytes)
      → length key ≡ 32
      → (payload : Text) × (encrypt node draw plaintext key ≡ some payload)
        × (decrypt node payload key ≡ some (to_well_formed plaintext))
  unfolding encrypt decrypt framed
  decrypt-encrypt draw plaintext key h =
      let iv = random_bytes draw 12 in
      let iv_ok = node.length-random_bytes draw 12 in
      let (cipher, tag, sealed, tag_ok, opened) =
        node.gcm_open-seal key iv (utf8_encode plaintext) h iv_ok in
      (
        framed node iv (cipher, tag),
        rw (sealed, encrypt),
        rw
            (
              decrypt,
              framed,
              node.base64_decode-encode (iv ++ (tag ++ cipher)),
              drop-drop 12 16 (iv ++ (tag ++ cipher)),
              take_prefix 12 iv (tag ++ cipher) iv_ok,
              drop_prefix 12 iv (tag ++ cipher) iv_ok,
              take_prefix 16 tag cipher tag_ok,
              drop_prefix 16 tag cipher tag_ok,
              opened,
              node.utf8_decode-encode plaintext,
            )
            refl,
      )

  -- What decryption returns has no lone surrogate.
  pub decrypt_well_formed :
      (payload : Text) (key : Bytes) {plaintext : Text}
      → decrypt node payload key ≡ some plaintext
      → to_well_formed plaintext ≡ plaintext
  unfolding decrypt
  decrypt_well_formed payload key {plaintext} h =
      let raw = node.base64_decode payload in
      let opened = node.gcm_open key (take 12 raw) (take 16 (drop 12 raw)) (drop 28 raw) in
      elim (Option-cases opened) [
        | inl failed ↦ absurd (ground arith)
        | inr (b, e) ↦
            let same : node.utf8_decode b ≡ plaintext = ground arith in
            rw (← same) (node.utf8_decode_well_formed b)
      ]
