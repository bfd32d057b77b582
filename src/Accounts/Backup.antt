-- ===== src/Accounts/Backup.antt =====
-- `exportAccounts` and `importAccounts` of accounts/accounts.service.ts. JSON is taken as the pair
-- of functions on the entries of a backup.
pub mod Roundtrip
use my_account_controller.Common.{
  ℕ, suc, ◌+◌, ◌≡◌, Bool, true, false, not, Option, none, some, List, [], ◌∷◌, Text, ◌==◌, Error,
  Result, ok, err, bad_request, conflict, cipher, json, bad_backup_version, bad_backup, or_throw,
  throw, throw_if, from_result, pure, gets, catching, ◌>>=◌, ◌>>◌, nat_eq,
}
use my_account_controller.Database.{Account, Prisma}
use my_account_controller.Crypto.{CryptoService}
use my_account_controller.Crypto.Encoding.{Bytes, to_well_formed}
use my_account_controller.Accounts.Service.{AccountData, create}
use my_account_controller.World.{World, Action, draw}

-- `JSON.stringify` of a list of entries, which escapes lone surrogates, and `JSON.parse` of a
-- text: `none` if that throws, or if what it gives is no list of entries.
pub record Json : Type 0 where
  pub stringify : List AccountData → Text
  pub parse : Text → Option (List AccountData)
  pub parse-stringify : (es : List AccountData) → parse (stringify es) ≡ some es
  pub stringify_well_formed : (es : List AccountData) → to_well_formed (stringify es) ≡ stringify es

pub record BackupFile : Type 0 where
  pub version : ℕ
  pub exported_at : ℕ
  pub salt : Text
  pub payload : Text

-- A conflict is counted as skipped; any other error ends the loop.
unfoldable pub import_error : Error → Action Bool
import_error (conflict m) = pure false
import_error e = throw e

module _ (prisma : Prisma) (crypto : CryptoService) (json_format : Json) where
  unfoldable pub plain_entry : Account → Text → AccountData
  plain_entry a password = record {
    service_name = a.service_name;
    url_or_app_name = a.url_or_app_name;
    category = a.category;
    login_id = a.login_id;
    password = password;
    custom_fields = a.custom_fields;
    memo = a.memo;
  }

  -- `accounts.map(...)`: the first password that does not decrypt throws.
  unfoldable pub plain_entries : List Account → Bytes → Option (List AccountData)
  plain_entries [] key = some []
  plain_entries (a ∷ rest) key =
      let later = plain_entries rest key in
      elim (crypto.decrypt a.encrypted_password key) [
        | none ↦ none
        | some password ↦ elim later [
          | none ↦ none
          | some entries ↦ some (plain_entry a password ∷ entries)
        ]
      ]

  unfoldable pub export_accounts : Text → Bytes → Text → Action BackupFile
  export_accounts user_id key export_password = do
    accounts ← gets (λ w.
        prisma.accounts.find_asc (λ a. a.created_at) (λ a. a.user_id == user_id) w.db.accounts)
    plain ← or_throw (plain_entries accounts key) cipher
    salt_draw ← draw
    let salt = crypto.generate_kdf_salt salt_draw
    let export_key = crypto.derive_encryption_key export_password salt
    iv_draw ← draw
    payload ← or_throw (crypto.encrypt iv_draw (json_format.stringify plain) export_key) cipher
    now ← gets (λ w. w.now)
    pure (record { version = 1; exported_at = now; salt = salt; payload = payload })

  -- The entries of a file, under the password given for it.
  unfoldable pub read_backup : Text → BackupFile → Result (List AccountData)
  read_backup export_password file =
      let export_key = crypto.derive_encryption_key export_password file.salt in
      elim (crypto.decrypt file.payload export_key) [
        | none ↦ err (bad_request bad_backup)
        | some text ↦ elim (json_format.parse text) [ none ↦ err json | some es ↦ ok es ]
      ]

  -- `create` with `customFields: null`, which is no value of the column: the password is encrypted,
  -- and Prisma throws before it asks the database.
  unfoldable pub create_with_null : Bytes → AccountData → Action Bool
  create_with_null key entry = do
    iv_draw ← draw
    payload ← or_throw (crypto.encrypt iv_draw entry.password key) cipher
    throw Error.invalid

  -- An entry of an exported file has the columns of its row, a null among them.
  unfoldable pub import_entry : Text → Bytes → AccountData → Action Bool
  unfolding import_error create_with_null
  import_entry user_id key entry =
      catching
        (elim entry.custom_fields [
          | none ↦ create_with_null key entry
          | some fields ↦ create prisma crypto user_id key entry >>= λ _. pure true
        ])
        import_error

  unfoldable pub import_entries : Text → Bytes → List AccountData → ℕ → ℕ → Action (ℕ × ℕ)
  import_entries user_id key [] imported skipped = pure (imported, skipped)
  import_entries user_id key (entry ∷ rest) imported skipped = do
    stored ← import_entry user_id key entry
    elim stored [
      | true ↦ import_entries user_id key rest (imported + 1) skipped
      | false ↦ import_entries user_id key rest imported (skipped + 1)
    ]

  unfoldable pub import_accounts : Text → Bytes → Text → BackupFile → Action (ℕ × ℕ)
  import_accounts user_id key export_password file = do
    throw_if (not (nat_eq file.version 1)) (bad_request bad_backup_version)
    entries ← from_result (read_backup export_password file)
    import_entries user_id key entries 0 0
