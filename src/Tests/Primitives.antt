-- ===== src/Tests/Primitives.antt =====
-- Instances of what the services are given: Node's functions, argon2 and the random source, each
-- by a simple function with the laws.
use my_account_controller.Common.{
  ℕ, zero, suc, ◌≡◌, refl, arith, Bool, true, false, ◌&&◌, Option, none, some, [], ◌∷◌, ◌++◌, Text,
  nat_eq, length, if◌then◌else◌, Bool-cases, inl, inr,
}
use my_account_controller.Crypto.{CryptoService}
use my_account_controller.Crypto.Encoding.{Bytes, is_high, is_low, repaired, to_well_formed}
use my_account_controller.Crypto.Aes.{Node}
use my_account_controller.Crypto.Kdf.{Argon2}
use my_account_controller.Crypto.Service.{crypto_service}
use my_account_controller.Accounts.Generator.{Random}

pub to_well_formed_single :
    (c : ℕ) (t : Text)
    → is_high c ≡ false
    → is_low c ≡ false
    → to_well_formed (c ∷ t) ≡ c ∷ to_well_formed t
unfolding to_well_formed
to_well_formed_single c [] h l = ground arith
to_well_formed_single c (d ∷ t) h l = ground arith

repaired_fine : (c : ℕ) → (is_high (repaired c) ≡ false) × (is_low (repaired c) ≡ false)
repaired_fine c = elim (Bool-cases (is_high c)) [
  | inl h ↦ elim (Bool-cases (is_low c)) [
    | inl l ↦ (ground arith, ground arith)
    | inr l ↦ (ground arith, ground arith)
  ]
  | inr h ↦ elim (Bool-cases (is_low c)) [
    | inl l ↦ (ground arith, ground arith)
    | inr l ↦ (ground arith, ground arith)
  ]
]

-- Repairing a text twice is repairing it once.
pub to_well_formed_twice : (t : Text) → to_well_formed (to_well_formed t) ≡ to_well_formed t
unfolding to_well_formed
to_well_formed_twice [] = refl
to_well_formed_twice (c ∷ []) =
    let (h, l) = repaired_fine c in to_well_formed_single (repaired c) [] h l
to_well_formed_twice (c ∷ d ∷ t) = elim (Bool-cases (is_high c && is_low d)) [
  | inl pair ↦ ground (arith, to_well_formed_twice t)
  | inr single ↦
      let (h, l) = repaired_fine c in
      ground (
        arith,
        to_well_formed_single (repaired c) (to_well_formed (d ∷ t)) h l,
        to_well_formed_twice (d ∷ t),
      )
]

-- The first `n` of a list, filled up with zeros.
abbrev pub fit : ℕ → Bytes → Bytes
fit zero xs = []
fit (suc n) [] = 0 ∷ fit n []
fit (suc n) (x ∷ xs) = x ∷ fit n xs

pub length-fit : (n : ℕ) (xs : Bytes) → length (fit n xs) ≡ n
length-fit zero xs = refl
length-fit (suc n) [] = omega (arith, length-fit n [])
length-fit (suc n) (x ∷ xs) = omega (arith, length-fit n xs)

-- What follows a key at the front of a list.
abbrev pub after_key : Bytes → Bytes → Option Bytes
after_key [] xs = some xs
after_key (k ∷ key) [] = none
after_key (k ∷ key) (x ∷ xs) = let rest = after_key key xs in if nat_eq k x then rest else none

pub after_key-append : (key xs : Bytes) → after_key key (key ++ xs) ≡ some xs
after_key-append [] xs = refl
after_key-append (k ∷ key) xs = ground (arith, after_key-append key xs)

-- A cipher that writes its key before the text, and opens under that key alone.
abbrev pub node : Node
node = record {
  random_bytes = λ draw n. fit n (draw ∷ []);
  utf8_encode = to_well_formed;
  utf8_decode = to_well_formed;
  base64_encode = λ b. b;
  base64_decode = λ t. t;
  gcm_seal = λ key iv plain. some (key ++ plain, fit 16 []);
  gcm_open = λ key iv tag cipher. after_key key cipher;
  length-random_bytes = λ draw n. length-fit n (draw ∷ []);
  utf8_decode-encode = to_well_formed_twice;
  utf8_decode_well_formed = to_well_formed_twice;
  base64_decode-encode = λ b. refl;
  gcm_open-seal = λ key iv plain k i.
      (key ++ plain, fit 16 [], refl, length-fit 16 [], after_key-append key plain);
}

abbrev pub same : Text → Text → Bool
same [] [] = true
same (a ∷ s) (b ∷ t) = nat_eq a b && same s t
same s t = false

pub same_refl : (t : Text) → same t t ≡ true
same_refl [] = refl
same_refl (a ∷ t) = ground (arith, same_refl t)

abbrev pub checks : Text → Text → Bool
checks [] password = false
checks (draw ∷ hash) password = same hash password

abbrev pub argon2 : Argon2
argon2 = record {
  hash = λ options draw password. draw ∷ password;
  verify = checks;
  raw = λ options salt n password. fit n (password ++ salt);
  verify-hash = λ options draw password. same_refl password;
  length-raw = λ options salt n password. length-fit n (password ++ salt);
}

abbrev pub crypto : CryptoService
crypto = crypto_service node argon2

-- A random source that always draws 0.
abbrev pub zeros : Random
zeros = record { random_int = λ draw n. 0; random_int-lt = λ draw n h. h }
