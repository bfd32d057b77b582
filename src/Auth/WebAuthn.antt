-- ===== src/Auth/WebAuthn.antt =====
-- auth/webauthn.service.ts: the trusted devices, over the package @simplewebauthn/server.
pub mod Replay
use my_account_controller.Common.{
  ℕ, ◌<◌, ◌≡◌, ◌⊎◌, ◌&&◌, Option, none, some, List, map, Text, ◌==◌, Result, ok, err, unauthorized,
  not_found, conflict, Error, p2002, p2025, registration_failed, unverified_registration,
  duplicate_device, unknown_device, authentication_failed, unverified_authentication,
  device_missing, or_throw, throw, pure, gets, from_result, catching, ◌>>=◌, ◌>>◌,
}
use my_account_controller.Database.{TrustedDevice, Prisma, device_clash, with_devices}
use my_account_controller.Crypto.Encoding.{Bytes}
use my_account_controller.Crypto.Aes.{Node}
use my_account_controller.World.{Action, draw, change_db, store}
use my_account_controller.Auth.Service.{find_user}

pub record Credential : Type 0 where
  pub id : Text
  pub public_key : Bytes
  pub counter : ℕ

-- What the options of a registration are made from, beside the constants of the service.
pub record RegistrationRequest : Type 0 where
  pub user_name : Text
  pub user_id : Text
  pub exclude_credentials : List Text

-- The package. Options and responses are JSON texts; a draw stands for the random challenge. The
-- origin and the relying party of the two checks are constants of the service. `none` is a
-- rejected promise, and `some none` an answer with `verified: false`.
pub record WebAuthnServer : Type 0 where
  pub registration_options : ℕ → RegistrationRequest → Text
  pub authentication_options : ℕ → Text
  pub challenge : Text → Text
  pub response_id : Text → Text
  pub response_counter : Text → ℕ
  pub verify_registration : Text → Text → Option (Option Credential)
  pub verify_authentication : Text → Text → Credential → Option (Option ℕ)
  -- A counter has to grow, unless the authenticator has none and both are 0.
  pub authentication_counts :
      (response expected : Text) (credential : Credential) {n : ℕ}
      → verify_authentication response expected credential ≡ some (some n)
      → (n ≡ response_counter response)
        × ((credential.counter < n) ⊎ ((n ≡ 0) × (credential.counter ≡ 0)))

-- `.catch(...)` around a check, and the test of `verified` after it
unfoldable pub verified_or : {A : Type 0} → Error → Error → Option (Option A) → Result A
verified_or rejected unverified none = err rejected
verified_or rejected unverified (some none) = err unverified
verified_or rejected unverified (some (some a)) = ok a

-- The columns that `listDevices` selects.
pub record DeviceSummary : Type 0 where
  pub id : Text
  pub device_label : Text
  pub webauthn_credential_id : Text
  pub created_at : ℕ
  pub last_used_at : Option ℕ

unfoldable pub device_summary : TrustedDevice → DeviceSummary
device_summary d = record {
  id = d.id;
  device_label = d.device_label;
  webauthn_credential_id = d.webauthn_credential_id;
  created_at = d.created_at;
  last_used_at = d.last_used_at;
}

-- P2002 of a create becomes a conflict; any other error is thrown again.
unfoldable pub device_conflict : Error → Action (Unit {0})
device_conflict (Error.prisma p2002) = throw (conflict duplicate_device)
device_conflict e = throw e

module _ (prisma : Prisma) (node : Node) (server : WebAuthnServer) where
  unfoldable pub create_registration_options : Text → Action Text
  create_registration_options user_id = do
    found ← find_user prisma user_id
    user ← or_throw found (Error.prisma p2025)
    existing ← gets (λ w. prisma.devices.find_many (λ d. d.user_id == user_id) w.db.devices)
    d ← draw
    let request : RegistrationRequest = record {
      user_name = user.google_email;
      user_id = user.id;
      exclude_credentials = map (λ device. device.webauthn_credential_id) existing;
    }
    pure (server.registration_options d request)

  unfoldable pub list_devices : Text → Action (List DeviceSummary)
  list_devices user_id = gets (λ w.
      map device_summary
        (prisma.devices.find_desc (λ d. d.created_at) (λ d. d.user_id == user_id) w.db.devices))

  unfoldable pub new_device : Text → Text → Credential → ℕ → ℕ → TrustedDevice
  new_device user_id device_label credential id now = record {
    id = prisma.uuid id;
    user_id = user_id;
    device_label = device_label;
    webauthn_credential_id = credential.id;
    webauthn_public_key = node.base64_encode credential.public_key;
    counter = credential.counter;
    created_at = now;
    last_used_at = none;
  }

  unfoldable pub verify_registration : Text → Text → Text → Text → Action TrustedDevice
  unfolding verified_or device_conflict
  verify_registration user_id device_label expected response = do
    credential ← from_result (
        verified_or (unauthorized registration_failed) (unauthorized unverified_registration)
          (server.verify_registration response expected))
    d ← draw
    now ← gets (λ w. w.now)
    let device = new_device user_id device_label credential d now
    catching (store (λ w. prisma.devices.create device_clash device w.db.devices) with_devices)
        device_conflict
    pure device

  unfoldable pub create_authentication_options : Action Text
  create_authentication_options = do d ← draw; pure (server.authentication_options d)

  unfoldable pub credential_of : TrustedDevice → Credential
  credential_of device = record {
    id = device.webauthn_credential_id;
    public_key = node.base64_decode device.webauthn_public_key;
    counter = device.counter;
  }

  unfoldable pub verify_authentication : Text → Text → Action TrustedDevice
  unfolding verified_or
  verify_authentication expected response = do
    found ← gets (λ w.
        prisma.devices.find_first (λ d. d.webauthn_credential_id == server.response_id response)
          w.db.devices)
    device ← or_throw found (unauthorized unknown_device)
    new_counter ← from_result (
        verified_or (unauthorized authentication_failed) (unauthorized unverified_authentication)
          (server.verify_authentication response expected (credential_of device)))
    store
        (λ w.
          prisma.devices.update device_clash (λ d. d.id == device.id)
            (λ d. record d { counter = new_counter; last_used_at = some w.now }) w.db.devices)
        with_devices
    pure device

  -- `removeDevice`: a device of the user, and then the row of that id
  unfoldable pub remove_device : Text → Text → Action (Unit {0})
  remove_device user_id device_id = do
    found ← gets (λ w.
        prisma.devices.find_first (λ d. d.id == device_id && d.user_id == user_id) w.db.devices)
    device ← or_throw found (not_found device_missing)
    change_db
        (λ db. with_devices (prisma.devices.delete_many (λ d. d.id == device_id) db.devices) db)
