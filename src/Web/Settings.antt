-- ===== src/Web/Settings.antt =====
-- The page of the settings, apps/web/src/app/(app)/settings/page.tsx: its sections with their state
-- and their handlers. A handler runs to the answers of its requests, the list of the devices that
-- it loads at its end included, before the next event.
pub mod Removal
use my_account_controller.Common.{
  ℕ, Bool, true, false, not, Option, none, some, List, [], ◌∷◌, Text, codes, given, ◌==◌, Error,
  Result, ok, err, remote, or_throw, pure, ◌>>=◌, ◌>>◌, if◌then◌else◌,
}
use my_account_controller.Crypto.{CryptoService}
use my_account_controller.Crypto.Aes.{Node}
use my_account_controller.Database.{Prisma}
use my_account_controller.Accounts.Backup.{Json, BackupFile}
use my_account_controller.Accounts.Controller as Vault
use my_account_controller.Auth.WebAuthn.{WebAuthnServer, DeviceSummary}
use my_account_controller.Auth.Controller as Routes
use my_account_controller.Web.Api.{Http}
use my_account_controller.Web.Crypto.{WebCrypto}
use my_account_controller.Web.Storage.{ObjectStore}
use my_account_controller.Web.Browser.{Browser, Browsing, request, attempt}
use my_account_controller.Web.Device.{
  Authenticator, RegisterResult, register_this_device, forget_this_device,
}

-- The section of the trusted devices. An error is what was thrown, which `getErrorMessage` turns
-- into the text that is shown; `info` tells whether a device was registered with its secret.
pub record Devices : Type 0 where
  pub devices : Option (List DeviceSummary)
  pub error : Option Error
  pub info : Option Bool
  pub registering : Bool

pub record AutoLock : Type 0 where
  pub minutes : Option ℕ
  pub error : Option Error
  pub info : Bool
  pub saving : Bool

-- The two new passwords differ, or the request failed.
pub data ChangeError : Type 0 where
  passwords_differ : ChangeError
  change_failed : Error → ChangeError

-- `info` has the number of devices that were revoked.
pub record ChangePassword : Type 0 where
  pub error : Option ChangeError
  pub info : Option ℕ
  pub saving : Bool

-- No file was chosen, the file is not JSON, or reading it or the request failed.
pub data ImportError : Type 0 where
  no_file not_json : ImportError
  import_failed : Error → ImportError

-- `downloads` lists the files that the browser saved, the latest first.
pub record Backups : Type 0 where
  pub export_password : Text
  pub exporting : Bool
  pub export_error : Option Error
  pub export_info : Bool
  pub downloads : List BackupFile
  pub import_password : Text
  pub import_file : Option Text
  pub importing : Bool
  pub import_error : Option ImportError
  pub import_info : Option (ℕ × ℕ)

-- `... || "이 브라우저"`
unfoldable pub label_or_default : Text → Text
label_or_default label = elim (given (some label)) [ none ↦ codes "이 브라우저" | some t ↦ t ]

module _ (http : Http) (prisma : Prisma) (crypto : CryptoService) where
  -- The form of the lock: what the settings say, a number that is typed, and the request.
  unfoldable pub load_minutes : AutoLock × Browser → AutoLock × Browser
  load_minutes =
      attempt (request http {A = ℕ} (Routes.settings prisma))
        (λ n s. (record s.0 { minutes = some n }, s.1))
        (λ e s. (record s.0 { error = some e }, s.1))

  unfoldable pub submit_minutes : AutoLock × Browser → AutoLock × Browser
  submit_minutes (p, b) = elim p.minutes [
    | none ↦ (p, b)
    | some n ↦
        attempt (request http {A = ℕ} (Routes.update_auto_lock_minutes prisma n))
          (λ m s. (record s.0 { info = true; saving = false }, s.1))
          (λ e s. (record s.0 { error = some e; saving = false }, s.1))
          (record p { error = none; info = false; saving = true }, b)
  ]

  module _ (json_format : Json) (parse : Text → Option BackupFile) where
    unfoldable pub handle_export : Backups × Browser → Backups × Browser
    handle_export (p, b) =
        attempt
          (request http {A = BackupFile}
            (Vault.export_accounts prisma crypto json_format p.export_password))
          (λ file s. (
            record s.0 {
              downloads = file ∷ p.downloads;
              export_info = true;
              export_password = [];
              exporting = false;
            },
            s.1,
          ))
          (λ e s. (record s.0 { export_error = some e; exporting = false }, s.1))
          (record p { export_error = none; export_info = false; exporting = true }, b)

    -- `parse` is `JSON.parse`, none a `SyntaxError`.
    unfoldable pub handle_import : Backups × Browser → Backups × Browser
    handle_import (p, b) = elim p.import_file [
      | none ↦ (record p { import_error = some no_file; import_info = none }, b)
      | some text ↦ elim (parse text) [
        | none ↦
            (record p { import_error = some not_json; import_info = none; importing = false }, b)
        | some file ↦
            attempt
              (request http {A = ℕ × ℕ}
                (Vault.import_accounts prisma crypto json_format p.import_password file))
              (λ counts s. (
                record s.0 {
                  import_info = some counts;
                  import_password = [];
                  import_file = none;
                  importing = false;
                },
                s.1,
              ))
              (λ e s.
                (record s.0 { import_error = some (import_failed e); importing = false }, s.1))
              (record p { import_error = none; import_info = none; importing = true }, b)
      ]
    ]

  module _ (node : Node) (server : WebAuthnServer) where
    unfoldable pub load_devices : Devices × Browser → Devices × Browser
    load_devices =
        attempt (request http {A = List DeviceSummary} (Routes.webauthn_devices prisma node server))
          (λ ds s. (record s.0 { devices = some ds }, s.1))
          (λ e s. (record s.0 { error = some e }, s.1))

    -- `onChanged` loads the devices again.
    unfoldable pub handle_change :
        Text
        → Text
        → Text
        → (ChangePassword × Devices) × Browser
        → (ChangePassword × Devices) × Browser
    unfolding load_devices
    handle_change current new confirmation ((p, d), b) =
        if not (new == confirmation)
        then ((record p { error = some passwords_differ; info = none }, d), b)
        else attempt
            (request http {A = ℕ} (Routes.change_master_password prisma crypto current new))
            (λ revoked s.
              let (d', b') = load_devices (s.0.1, s.1) in
              ((record s.0.0 { info = some revoked; saving = false }, d'), b'))
            (λ e s. ((record s.0.0 { error = some (change_failed e); saving = false }, s.0.1), s.1))
            ((record p { error = none; info = none; saving = true }, d), b)

    module _ (web : WebCrypto) (store : ObjectStore) (auth : Authenticator) where
      unfoldable pub handle_register : Text → Text → Devices × Browser → Devices × Browser
      unfolding load_devices
      handle_register label password (p, b) =
          attempt
            (register_this_device web store auth http prisma node server (label_or_default label)
              password)
            (λ r s.
              load_devices (record s.0 { info = some r.prf_supported; registering = false }, s.1))
            (λ e s. (record s.0 { error = some e; registering = false }, s.1))
            (record p { error = none; info = none; registering = true }, b)

      -- The two calls of `handleRemove`: the device on the server, then the stored password.
      unfoldable pub remove_and_forget : DeviceSummary → Browsing (Unit {0})
      remove_and_forget device = do
        request http {A = Unit {0}} (Routes.webauthn_remove prisma node server device.id)
        forget_this_device web store auth device.webauthn_credential_id

      -- With the answer to the question whether to remove.
      unfoldable pub handle_remove : Bool → DeviceSummary → Devices × Browser → Devices × Browser
      unfolding load_devices remove_and_forget
      handle_remove false device (p, b) = (p, b)
      handle_remove true device (p, b) =
          attempt (remove_and_forget device) (λ u s. load_devices s)
            (λ e s. (record s.0 { error = some e }, s.1)) (record p { error = none }, b)
