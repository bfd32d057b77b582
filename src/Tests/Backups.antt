-- ===== src/Tests/Backups.antt =====
-- Runs of a backup, of the cipher, of the generator and of a login by a trusted device.
use my_account_controller.Common.{
  tail, sym, ◌∙◌, ℕ, ◌<◌, ◌≡◌, ◌≢◌, ◌⊎◌, refl, arith, false, some, none, Option, List, [], ◌∷◌,
  ◌++◌, Text, codes, ok, err, invalid, Memᴰ, head, Result, unauthorized, wrong_master_password,
  length, min, max, or_else, count_where, Text-discrete, ◌==◌, inl, inr, ltb, if◌then◌else◌,
  Bool-cases,
}
use native.Mathlib.Decide.{ℕ_discrete}
use my_account_controller.Crypto.Encoding.{Bytes, to_well_formed}
use my_account_controller.Crypto.Aes.{encrypt, decrypt}
use my_account_controller.Crypto.Aes.Roundtrip.{decrypt-encrypt}
use my_account_controller.Crypto.TokenKey.{ready, on_module_init}
use my_account_controller.Database.{Account, User, TrustedDevice}
use my_account_controller.Accounts.Service.{AccountData}
use my_account_controller.Accounts.Backup.{BackupFile, export_accounts, read_backup, import_entries}
use my_account_controller.Accounts.Backup.Roundtrip.{ArePlain, read_backup-export_accounts}
use my_account_controller.Accounts.Generator.{
  Options, uppercase, generate_password, active_charsets,
}
use my_account_controller.Accounts.Generator.Laws.{
  is_in, length-generate_password, generate_password_covers,
}
use my_account_controller.Auth.Guards.Laws.{IsOpen}
use my_account_controller.Auth.WebAuthn.{WebAuthnServer}
use my_account_controller.Auth.WebAuthn.Replay.{DevicesDistinct, accepted_once}
use my_account_controller.Auth.WebAuthn
use my_account_controller.Auth.Controller.{take_challenge, webauthn_authenticate}
use my_account_controller.Auth.Controller.Ownership.{webauthn_authenticate_wrong_password}
use my_account_controller.Tests.Primitives.{node, crypto, zeros, fit}
use my_account_controller.Tests.Server.{
  client, alice, bob, world, bank, alice_key, alice_row, entry, session,
}
use my_account_controller.Tests.Format.{unary_format}
use my_account_controller.World.{World}

abbrev key : Bytes
key = fit 32 (9 ∷ [])

decrypt-encrypt_example :
    (payload : Text) × (encrypt node 3 (codes "secret") key ≡ some payload)
    × (decrypt node payload key ≡ some (to_well_formed (codes "secret")))
decrypt-encrypt_example = decrypt-encrypt node 3 (codes "secret") key refl

starts : on_module_init node (some key) ≡ ready key
unfolding on_module_init
starts = refl

-- Alice's vault with one account of short texts.
abbrev small : Account
small = record bank {
  service_name = 1 ∷ [];
  url_or_app_name = 2 ∷ [];
  category = [];
  login_id = 3 ∷ [];
  encrypted_password = fit 12 [] ++ (fit 16 [] ++ (alice_key ++ (4 ∷ [])));
}

abbrev vault : World
vault = record world { db = record world.db { accounts = small ∷ [] } }

abbrev plain : AccountData
plain = record {
  service_name = 1 ∷ [];
  url_or_app_name = 2 ∷ [];
  category = [];
  login_id = 3 ∷ [];
  password = 4 ∷ [];
  custom_fields = none;
  memo = none;
}

abbrev exporting : Result BackupFile × World
exporting = export_accounts client crypto unary_format alice alice_key (codes "ex") vault

abbrev file : BackupFile
file = record {
  version = 1;
  exported_at = 2_000;
  salt = fit 16 (0 ∷ []);
  payload =
      fit 12 (1 ∷ [])
      ++ (fit 16 [] ++ (fit 32 (codes "ex") ++ unary_format.stringify (plain ∷ [])));
}

exported : exporting ≡ (ok file, exporting.1)
unfolding export_accounts my_account_controller.Accounts.Backup.plain_entries Text-discrete
    native.Mathlib.Decide.ℕ_discrete decrypt encrypt
    my_account_controller.Crypto.Kdf.generate_kdf_salt my_account_controller.Crypto.Aes.framed
    my_account_controller.Crypto.Kdf.derive_encryption_key to_well_formed
    my_account_controller.Accounts.Backup.plain_entry
exported = refl

read_backup-export_accounts_example :
    (es : List AccountData) × (read_backup client crypto unary_format (codes "ex") file ≡ ok es)
    × ArePlain client crypto unary_format alice_key
        (client.accounts.find_asc (λ a. a.created_at) (λ a. a.user_id == alice) vault.db.accounts)
        es
    × (file.version ≡ 1)
    × (exporting.1.db ≡ vault.db)
read_backup-export_accounts_example =
    read_backup-export_accounts client crypto unary_format alice (codes "ex") alice_key vault
      exported

abbrev with_fields : AccountData
with_fields = record plain { custom_fields = some [] }

-- The second entry is the first again.
abbrev importing : Result (ℕ × ℕ) × World
importing =
    import_entries client crypto unary_format bob alice_key (with_fields ∷ with_fields ∷ []) 0 0
      vault

imported : importing ≡ (ok (1, 1), importing.1)
unfolding import_entries my_account_controller.Accounts.Backup.import_entry
    my_account_controller.Accounts.Service.create encrypt
    my_account_controller.Database.account_clash Text-discrete
    my_account_controller.Accounts.Service.new_account native.Mathlib.Decide.ℕ_discrete
imported = refl

-- The entry that the export gave has no custom fields.
abbrev restoring : Result (ℕ × ℕ) × World
restoring = import_entries client crypto unary_format bob alice_key (plain ∷ []) 0 0 vault

null_refused : restoring ≡ (err invalid, restoring.1)
unfolding import_entries my_account_controller.Accounts.Backup.import_entry encrypt
null_refused = refl

abbrev defaults : Options
defaults = record {
  length = none;
  include_uppercase = none;
  include_lowercase = none;
  include_numbers = some false;
  include_symbols = some false;
}

length-generate_password_example :
    length (generate_password zeros 0 defaults) ≡ min (max (or_else none 16) 8) 64
length-generate_password_example = length-generate_password zeros 0 defaults

uppercase_active : Memᴰ uppercase (active_charsets defaults)
unfolding active_charsets
uppercase_active = head refl

generate_password_covers_example :
    0 < count_where (is_in uppercase) (generate_password zeros 0 defaults)
generate_password_covers_example =
    generate_password_covers zeros 0 defaults uppercase uppercase_active

-- Bob's device, in Alice's open session.
abbrev device : TrustedDevice
device = record {
  id = 60 ∷ [];
  user_id = bob;
  device_label = [];
  webauthn_credential_id = codes "cred";
  webauthn_public_key = [];
  counter = 4;
  created_at = 0;
  last_used_at = none;
}

abbrev answer : ℕ → Option (Option ℕ)
answer counter = if ltb counter 5 then some (some 5) else none

answer_grows :
    (counter : ℕ) {n : ℕ}
    → answer counter ≡ some (some n)
    → (n ≡ 5) × ((counter < n) ⊎ ((n ≡ 0) × (counter ≡ 0)))
answer_grows counter {n} h = elim (Bool-cases (ltb counter 5)) [
  | inl low ↦ let e : n ≡ 5 = ground arith in let l : counter < n = ground arith in (e, inl l)
  | inr high ↦ absurd (ground arith)
]

-- A server of the package that accepts every response, whose counter is always 5.
abbrev server : WebAuthnServer
server = record {
  registration_options = λ n r. [];
  authentication_options = λ n. [];
  challenge = λ options. codes "ch";
  response_id = λ r. codes "cred";
  response_counter = λ r. 5;
  verify_registration = λ r e. none;
  verify_authentication = λ r e c. answer c.counter;
  authentication_counts = λ r e c. answer_grows c.counter;
}

abbrev bob_row : User
bob_row = record alice_row { id = bob; google_sub_id = codes "bob" }

abbrev shared : World
shared = record world {
  db = record world.db { users = alice_row ∷ bob_row ∷ []; devices = device ∷ [] };
  session = record session { current_webauthn_challenge = some (codes "ch") };
}

abbrev answered : World
answered =
    (WebAuthn.verify_authentication client node server (codes "ch") [] (take_challenge shared).1).1

shared-IsOpen : IsOpen shared alice alice_key
unfolding Text-discrete ℕ_discrete my_account_controller.Auth.KeyStore.is_idle
shared-IsOpen = (refl, refl, (entry, refl, refl, refl))

challenged : take_challenge shared ≡ (ok (codes "ch"), (take_challenge shared).1)
unfolding take_challenge
challenged = refl

accepted :
    WebAuthn.verify_authentication client node server (codes "ch") [] (take_challenge shared).1
    ≡ (ok device, answered)
unfolding WebAuthn.verify_authentication take_challenge Text-discrete server ℕ_discrete
    WebAuthn.credential_of
accepted = refl

not_empty : bob ≢ []
not_empty h = ground arith

bob_found : client.users.find_first (λ u. u.id == bob) shared.db.users ≡ some bob_row
unfolding Text-discrete ℕ_discrete
bob_found = refl

refused : crypto.verify_master_password [] bob_row.master_password_hash ≡ false
unfolding my_account_controller.Crypto.Kdf.verify_master_password
refused = refl

webauthn_authenticate_wrong_password_example :
    (w' : World) × (webauthn_authenticate client node server crypto [] [] shared
      ≡ (err (unauthorized wrong_master_password), w'))
    × IsOpen w' bob alice_key
webauthn_authenticate_wrong_password_example =
    webauthn_authenticate_wrong_password client node server crypto [] [] alice (codes "ch") shared
      shared-IsOpen challenged accepted not_empty bob_found refused

devices_distinct : DevicesDistinct shared.db.devices
devices_distinct a b (head e) (head f) h = e ∙ sym f
devices_distinct a b (tail m) n h = elim m [ ]
devices_distinct a b m (tail n) h = elim n [ ]

counter_counts : server.response_counter [] ≢ 0
counter_counts h = ground arith

first_accepted :
    WebAuthn.verify_authentication client node server (codes "ch") [] shared
    ≡ (ok device, (WebAuthn.verify_authentication client node server (codes "ch") [] shared).1)
unfolding WebAuthn.verify_authentication Text-discrete ℕ_discrete WebAuthn.credential_of
first_accepted = refl

accepted_once_example :
    WebAuthn.verify_authentication client node server
      (codes "new")
      []
      (WebAuthn.verify_authentication client node server (codes "ch") [] shared).1
    ≢ (ok device, shared)
accepted_once_example =
    accepted_once client node server [] (codes "ch") (codes "new") shared devices_distinct
      counter_counts first_accepted
