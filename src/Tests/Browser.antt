-- ===== src/Tests/Browser.antt =====
-- Instances of what the web client is given: the browser's cipher, its store, an authenticator and
-- the answers of the server, each by a simple function with the laws.
use my_account_controller.Common.{
  ℕ, zero, suc, ◌<◌, ◌≡◌, ◌↔◌, ◌⊎◌, refl, sym, ◌∙◌, ap, arith, Bool, true, false, Option, none,
  some, List, [], ◌∷◌, map, Text, codes, nat_eq, length, if◌then◌else◌, Bool-cases, inl, inr, ltb,
  ◌==◌, Result, ok, err, Memᴰ, head, tail, is_some, ==_yes, eq_of_==,
}
use my_account_controller.Crypto.Encoding.{Bytes, to_well_formed}
use my_account_controller.Auth.WebAuthn.{WebAuthnServer}
use my_account_controller.Web.Api.{Response, Http}
use my_account_controller.Web.Crypto.{AreBytes, without_mark, WebCrypto}
use my_account_controller.Web.Storage.{WrappedMasterPassword, ObjectStore}
use my_account_controller.Web.Device.{Authenticator}
use my_account_controller.Tests.Primitives.{fit}

-- A text in bytes: for each code unit as many ones, and a zero.
abbrev ones : ℕ → Bytes → Bytes
ones zero rest = 0 ∷ rest
ones (suc n) rest = 1 ∷ ones n rest

abbrev unary : Text → Bytes
unary [] = []
unary (c ∷ t) = ones c (unary t)

abbrev read_unary : ℕ → Bytes → Text
read_unary n [] = []
read_unary n (zero ∷ bs) = n ∷ read_unary 0 bs
read_unary n (suc b ∷ bs) = read_unary (suc n) bs

ones_bytes : (n : ℕ) (rest : Bytes) → AreBytes rest → AreBytes (ones n rest)
ones_bytes zero rest h = (omega arith, h)
ones_bytes (suc n) rest h = (omega arith, ones_bytes n rest h)

pub unary_bytes : (t : Text) → AreBytes (unary t)
unary_bytes [] = tt
unary_bytes (c ∷ t) = ones_bytes c (unary t) (unary_bytes t)

read_ones :
    (m n : ℕ) (rest : Bytes)
    → read_unary m (ones n rest) ≡ my_account_controller.Common.◌+◌ n m ∷ read_unary 0 rest
read_ones m zero rest = ground arith
read_ones m (suc n) rest = ground (arith, read_ones (suc m) n rest)

pub read_unary-unary : (t : Text) → read_unary 0 (unary t) ≡ t
read_unary-unary [] = refl
read_unary-unary (c ∷ t) = ground (arith, read_ones 0 c (unary t), read_unary-unary t)

pub zeros_bytes : (n : ℕ) → AreBytes (fit n [])
zeros_bytes zero = tt
zeros_bytes (suc n) = (omega arith, zeros_bytes n)

-- A cipher that hides nothing.
abbrev pub web : WebCrypto
web = record {
  digest = λ b. [];
  derive_key = λ secret salt info. secret;
  random_values = λ draw n. fit n [];
  encrypt = λ key iv plain. plain;
  decrypt = λ key iv cipher. some cipher;
  text_encode = λ t. unary (to_well_formed t);
  text_decode = λ b. without_mark (read_unary 0 b);
  btoa = λ t. t;
  atob = λ t. some t;
  random_values_bytes = λ draw n. zeros_bytes n;
  text_encode_bytes = λ t. unary_bytes (to_well_formed t);
  encrypt_bytes = λ key iv plain h. h;
  decrypt-encrypt = λ key iv plain h. refl;
  text_decode-encode = λ t. ap without_mark (read_unary-unary (to_well_formed t));
  atob-btoa = λ s h. refl;
}

abbrev get : Text → List WrappedMasterPassword → Option WrappedMasterPassword
get id [] = none
get id (e ∷ rows) = let rest = get id rows in if e.credential_id == id then some e else rest

abbrev delete : Text → List WrappedMasterPassword → List WrappedMasterPassword
delete id [] = []
delete id (e ∷ rows) = let rest = delete id rows in if e.credential_id == id then rest else e ∷ rest

pub get-delete :
    (id other : Text) (rows : List WrappedMasterPassword)
    → get other (delete id rows) ≡ (if id == other then none else get other rows)
get-delete id other [] = ground arith
get-delete id other (e ∷ rows) = elim (Bool-cases (e.credential_id == id)) [
  | inl same ↦
      let one : e.credential_id ≡ id = eq_of_== same in
      ground (arith, get-delete id other rows, one)
  | inr other_key ↦ elim (Bool-cases (e.credential_id == other)) [
    | inl same ↦
        let one : e.credential_id ≡ other = eq_of_== same in
        ground (arith, get-delete id other rows, one)
    | inr differs ↦ ground (arith, get-delete id other rows)
  ]
]

pub keys_of :
    (id : Text) (rows : List WrappedMasterPassword)
    → Memᴰ id (map (λ e. e.credential_id) rows)
    → is_some (get id rows) ≡ true
keys_of id [] m = elim m [ ]
keys_of id (e ∷ rows) (head h) = ground arith
keys_of id (e ∷ rows) (tail m) = ground (arith, keys_of id rows m)

pub of_keys :
    (id : Text) (rows : List WrappedMasterPassword)
    → is_some (get id rows) ≡ true
    → Memᴰ id (map (λ e. e.credential_id) rows)
of_keys id [] h = absurd (ground arith)
of_keys id (e ∷ rows) h = elim (Bool-cases (e.credential_id == id)) [
  | inl same ↦ head (sym (eq_of_== same))
  | inr differs ↦ tail (of_keys id rows (ground arith))
]

-- The newest row comes first and hides the older ones of its key.
abbrev pub store : ObjectStore
store = record {
  put = λ e rows. some (e ∷ rows);
  get = get;
  get_all_keys = λ rows. map (λ e. e.credential_id) rows;
  delete = delete;
  get-put = λ id e rows {rows'} h. ground arith;
  get-delete = get-delete;
  get_all_keys_iff = λ id rows. (keys_of id rows, of_keys id rows);
}

abbrev answer : (A : Type 0) → Result A → Response A
answer A (ok a) = record { status = 200; is_json = true; value = some a; message = none }
answer A (err e) = record { status = 400; is_json = true; value = none; message = none }

abbrev pub http : Http
http = record {
  answer = answer;
  answer-ok = λ A a. (refl, refl, refl);
  answer-err = λ A e. omega arith;
}

abbrev asked : List Text → Text
asked [] = codes "cred"
asked (id ∷ ids) = id

-- An authenticator whose secret for a credential is the credential's name.
abbrev pub authenticator : Authenticator
authenticator = record {
  browser_supports_webauthn = true;
  start_registration =
      λ options. some (record { id = codes "cred"; prf_enabled = true; response = [] });
  start_authentication = λ r. some (record {
    id = asked r.allow_credentials;
    prf_output = some (asked r.allow_credentials);
    response = [];
  });
  challenge_of = λ b. b;
  prf_of = λ id salt. some id;
  prf_lem = λ r {a} h. ground arith;
  allowed_lem = λ r id {a} h e. ground arith;
}

abbrev counted : ℕ → Option (Option ℕ)
counted counter = if ltb counter 5 then some (some 5) else none

pub counted_grows :
    (counter : ℕ) {n : ℕ}
    → counted counter ≡ some (some n)
    → (n ≡ 5) × ((counter < n) ⊎ ((n ≡ 0) × (counter ≡ 0)))
counted_grows counter {n} h = elim (Bool-cases (ltb counter 5)) [
  | inl low ↦ let e : n ≡ 5 = ground arith in let l : counter < n = ground arith in (e, inl l)
  | inr high ↦ absurd (ground arith)
]

-- A server of the package that accepts the one credential of that authenticator.
abbrev pub enrolling : WebAuthnServer
enrolling = record {
  registration_options = λ n r. [];
  authentication_options = λ n. [];
  challenge = λ options. codes "ch";
  response_id = λ r. codes "cred";
  response_counter = λ r. 5;
  verify_registration =
      λ r e. some (some (record { id = codes "cred"; public_key = []; counter = 0 }));
  verify_authentication = λ r e c. counted c.counter;
  authentication_counts = λ r e c. counted_grows c.counter;
}
