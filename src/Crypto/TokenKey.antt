-- ===== src/Crypto/TokenKey.antt =====
-- common/crypto/gmail-token-key.service.ts: the server's own key for Gmail tokens, read once from
-- the environment when the module starts.
use my_account_controller.Common.{
  ℕ, ◌≡◌, Option, none, some, [], ◌∷◌, refl, arith, Text, length, given, nat_eq, if◌then◌else◌,
}
use my_account_controller.Crypto.Encoding.{Bytes}
use my_account_controller.Crypto.Aes.{Node}

-- How the start ends: with the key, or with one of the two errors.
pub data Start : Type 0 where
  ready : Bytes → Start
  unset : Start
  wrong_length : ℕ → Start

module _ (node : Node) where
  check_length : Bytes → Start
  check_length key = if nat_eq (length key) 32 then ready key else wrong_length (length key)

  ready_length :
      (b : Bytes) {key : Bytes} → check_length b ≡ ready key → (b ≡ key) × (length b ≡ 32)
  unfolding check_length
  ready_length b h = ground arith

  unfoldable pub on_module_init : Option Text → Start
  unfolding check_length
  on_module_init env = elim (given env) [
    | none ↦ unset
    | some raw ↦ check_length (node.base64_decode raw)
  ]

  -- A server that starts has a key of 32 bytes, the decoded variable.
  on_module_init-ready :
      (env : Option Text) {key : Bytes}
      → on_module_init env ≡ ready key
      → (length key ≡ 32) × ((raw : Text) × (env ≡ some raw) × (node.base64_decode raw ≡ key))
  unfolding on_module_init
  on_module_init-ready none h = cc
  on_module_init-ready (some []) h = cc
  on_module_init-ready (some (c ∷ t)) {key} h =
      let fits = ready_length (node.base64_decode (c ∷ t)) h in
      (rw (← fits.0) fits.1, (c ∷ t, refl, fits.0))
