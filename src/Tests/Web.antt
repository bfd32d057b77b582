-- ===== src/Tests/Web.antt =====
-- The trusted devices of the web client at concrete states.
use my_account_controller.Common.{
  ◌+◌, ◌<◌, ◌≡◌, ◌↔◌, refl, arith, true, false, some, none, List, [], ◌∷◌, Text, codes, ok, err,
  Result, ◌≢◌, ◌==◌, Memᴰ,
}
use my_account_controller.Crypto.Encoding.{Bytes, to_well_formed}
use my_account_controller.Auth.Controller.{me}
use my_account_controller.Web.Crypto.{
  without_mark, wrap_master_password, unwrap_master_password, unwrap-wrap_master_password,
  get_prf_eval_salt,
}
use my_account_controller.Web.Browser.{Browser}
use my_account_controller.Web.Device.{
  Registration, Assertion, RegisterResult, register_this_device, authenticate_with_stored_device,
}
use my_account_controller.Web.Device.Roundtrip.{Enrolled}
use my_account_controller.Web.Login.{biometric_unlock}
use my_account_controller.Web.Login.Biometric.{OpenWith, biometric_unlock-OpenWith}
use my_account_controller.Web.Storage.{WrappedMasterPassword}
use my_account_controller.Web.Settings.{remove_and_forget}
use my_account_controller.Web.Settings.Removal.{remove_and_forget_lem}
use my_account_controller.Auth.WebAuthn.{DeviceSummary}
use my_account_controller.Database.{delete_candidate, TrustedDevice}
use my_account_controller.World.{World}
use my_account_controller.Tests.Primitives.{node, crypto}
use my_account_controller.Tests.Server.{client, world, alice_row}
use my_account_controller.Tests.Browser.{web, store, http, authenticator, enrolling}

abbrev password : Text
password = 2 ∷ []

-- Alice with a short password.
abbrev brief : World
brief = record world {
  db = record world.db { users = record alice_row { master_password_hash = 0 ∷ password } ∷ [] };
}

-- Alice registers her device, and comes back with it.
abbrev before : Browser
before = record { server = brief; stored = some []; draws = 0 }

abbrev registering : Result RegisterResult × Browser
registering =
    register_this_device web store authenticator http client node enrolling [] password before

abbrev after : Browser
after = registering.1

abbrev credential : Registration
credential = record { id = codes "cred"; prf_enabled = true; response = [] }

abbrev assertion : Assertion
assertion = record { id = codes "cred"; prf_output = some (codes "cred"); response = [] }

abbrev coming_back : Result (Assertion × Text) × Browser
coming_back =
    authenticate_with_stored_device web store authenticator http client node enrolling after

enrolled : Enrolled web store authenticator http client node enrolling before credential
unfolding my_account_controller.Web.Browser.request my_account_controller.Web.Api.received
    my_account_controller.Web.Api.api_fetch
    my_account_controller.Auth.Controller.webauthn_register_options
    my_account_controller.Auth.Guards.unlocked_guard my_account_controller.Auth.KeyStore.touch
    my_account_controller.Common.Text-discrete native.Mathlib.Decide.ℕ_discrete
    my_account_controller.Auth.KeyStore.is_idle
    my_account_controller.Auth.WebAuthn.create_registration_options
enrolled = ([], _, refl, refl)

registered : registering ≡ (ok (record { device_id = 1_001 ∷ []; prf_supported = true }), after)
unfolding register_this_device authenticate_with_stored_device
    my_account_controller.Web.Browser.request my_account_controller.Web.Api.received
    my_account_controller.Web.Api.api_fetch
    my_account_controller.Auth.Controller.webauthn_register_options
    my_account_controller.Auth.Controller.webauthn_authenticate_options
    my_account_controller.Auth.WebAuthn.create_authentication_options
    my_account_controller.Auth.Guards.unlocked_guard my_account_controller.Auth.KeyStore.touch
    my_account_controller.Common.Text-discrete my_account_controller.Auth.KeyStore.is_idle
    my_account_controller.Auth.WebAuthn.create_registration_options
    my_account_controller.Auth.Controller.webauthn_register
    my_account_controller.Auth.Controller.take_challenge
    my_account_controller.Auth.WebAuthn.verify_registration
    my_account_controller.Web.Device.prime_if my_account_controller.Web.Device.prime
    my_account_controller.Web.Browser.save_wrapped_master_password
    my_account_controller.Web.Browser.get_wrapped_master_password
    my_account_controller.Auth.Guards.admit my_account_controller.Auth.Guards.touch_key
    my_account_controller.Auth.WebAuthn.device_conflict
    my_account_controller.Auth.WebAuthn.new_device my_account_controller.Auth.WebAuthn.verified_or
    my_account_controller.Database.device_clash my_account_controller.Web.Api.body_of
    my_account_controller.Web.Api.message_of my_account_controller.Web.Browser.open_db
    my_account_controller.Web.Crypto.derive_wrapping_key
    my_account_controller.Web.Crypto.from_base64 my_account_controller.Web.Crypto.get_prf_eval_salt
    my_account_controller.Web.Crypto.hkdf_info my_account_controller.Web.Crypto.hkdf_salt
    my_account_controller.Web.Crypto.to_base64
    my_account_controller.Web.Crypto.unwrap_master_password
    my_account_controller.Web.Crypto.wrap_master_password
    my_account_controller.Web.Device.keep_password my_account_controller.Web.Device.unwrap_stored
    native.Mathlib.Decide.ℕ_discrete my_account_controller.Crypto.Encoding.to_well_formed
registered = refl

came_back : coming_back ≡ (ok (assertion, password), coming_back.1)
unfolding register_this_device authenticate_with_stored_device
    my_account_controller.Web.Browser.request my_account_controller.Web.Api.received
    my_account_controller.Web.Api.api_fetch
    my_account_controller.Auth.Controller.webauthn_register_options
    my_account_controller.Auth.Controller.webauthn_authenticate_options
    my_account_controller.Auth.WebAuthn.create_authentication_options
    my_account_controller.Auth.Guards.unlocked_guard my_account_controller.Auth.KeyStore.touch
    my_account_controller.Common.Text-discrete my_account_controller.Auth.KeyStore.is_idle
    my_account_controller.Auth.WebAuthn.create_registration_options
    my_account_controller.Auth.Controller.webauthn_register
    my_account_controller.Auth.Controller.take_challenge
    my_account_controller.Auth.WebAuthn.verify_registration
    my_account_controller.Web.Device.prime_if my_account_controller.Web.Device.prime
    my_account_controller.Web.Browser.save_wrapped_master_password
    my_account_controller.Web.Browser.get_wrapped_master_password
    my_account_controller.Auth.Guards.admit my_account_controller.Auth.Guards.touch_key
    my_account_controller.Auth.WebAuthn.device_conflict
    my_account_controller.Auth.WebAuthn.new_device my_account_controller.Auth.WebAuthn.verified_or
    my_account_controller.Database.device_clash my_account_controller.Web.Api.body_of
    my_account_controller.Web.Api.message_of my_account_controller.Web.Browser.open_db
    my_account_controller.Web.Crypto.derive_wrapping_key
    my_account_controller.Web.Crypto.from_base64 my_account_controller.Web.Crypto.get_prf_eval_salt
    my_account_controller.Web.Crypto.hkdf_info my_account_controller.Web.Crypto.hkdf_salt
    my_account_controller.Web.Crypto.to_base64
    my_account_controller.Web.Crypto.unwrap_master_password
    my_account_controller.Web.Crypto.wrap_master_password
    my_account_controller.Web.Device.keep_password my_account_controller.Web.Device.unwrap_stored
    native.Mathlib.Decide.ℕ_discrete my_account_controller.Crypto.Encoding.to_well_formed
came_back = refl

unlocking :
    biometric_unlock web store authenticator http client node enrolling crypto after
    ≡ (ok tt, (biometric_unlock web store authenticator http client node enrolling crypto after).1)
unfolding register_this_device authenticate_with_stored_device
    my_account_controller.Web.Browser.request my_account_controller.Web.Api.received
    my_account_controller.Web.Api.api_fetch
    my_account_controller.Auth.Controller.webauthn_register_options
    my_account_controller.Auth.Controller.webauthn_authenticate_options
    my_account_controller.Auth.WebAuthn.create_authentication_options
    my_account_controller.Auth.Guards.unlocked_guard my_account_controller.Auth.KeyStore.touch
    my_account_controller.Common.Text-discrete my_account_controller.Auth.KeyStore.is_idle
    my_account_controller.Auth.WebAuthn.create_registration_options
    my_account_controller.Auth.Controller.webauthn_register
    my_account_controller.Auth.Controller.take_challenge
    my_account_controller.Auth.WebAuthn.verify_registration
    my_account_controller.Web.Device.prime_if my_account_controller.Web.Device.prime
    my_account_controller.Web.Browser.save_wrapped_master_password
    my_account_controller.Web.Browser.get_wrapped_master_password
    my_account_controller.Auth.Guards.admit my_account_controller.Auth.Guards.touch_key
    my_account_controller.Auth.WebAuthn.device_conflict
    my_account_controller.Auth.WebAuthn.new_device my_account_controller.Auth.WebAuthn.verified_or
    my_account_controller.Database.device_clash my_account_controller.Web.Api.body_of
    my_account_controller.Web.Api.message_of my_account_controller.Web.Browser.open_db
    my_account_controller.Web.Crypto.derive_wrapping_key
    my_account_controller.Web.Crypto.from_base64 my_account_controller.Web.Crypto.get_prf_eval_salt
    my_account_controller.Web.Crypto.hkdf_info my_account_controller.Web.Crypto.hkdf_salt
    my_account_controller.Web.Crypto.to_base64
    my_account_controller.Web.Crypto.unwrap_master_password
    my_account_controller.Web.Crypto.wrap_master_password
    my_account_controller.Web.Device.keep_password my_account_controller.Web.Device.unwrap_stored
    native.Mathlib.Decide.ℕ_discrete biometric_unlock
    my_account_controller.Auth.Controller.webauthn_authenticate
    my_account_controller.Auth.KeyStore.set my_account_controller.Auth.Service.unlock
    my_account_controller.Auth.WebAuthn.credential_of
    my_account_controller.Auth.WebAuthn.verify_authentication
    my_account_controller.Crypto.Kdf.verify_master_password
    my_account_controller.Crypto.Kdf.derive_encryption_key
    my_account_controller.Crypto.Encoding.to_well_formed
unlocking = refl

biometric_unlock-OpenWith_example :
    OpenWith client node enrolling crypto
      (without_mark (to_well_formed password))
      (biometric_unlock web store authenticator http client node enrolling crypto after).1.server
biometric_unlock-OpenWith_example =
    biometric_unlock-OpenWith client node enrolling crypto web store authenticator http [] password
      before after enrolled registered refl refl refl came_back refl unlocking

-- Alice removes the device that she registered.
abbrev listed : DeviceSummary
listed = record {
  id = 1_001 ∷ [];
  device_label = [];
  webauthn_credential_id = codes "cred";
  created_at = 2_000;
  last_used_at = none;
}

abbrev removing : Result (Unit {0}) × Browser
removing = remove_and_forget http client crypto node enrolling web store authenticator listed after

removed : removing ≡ (ok tt, removing.1)
unfolding remove_and_forget my_account_controller.Web.Browser.request
    my_account_controller.Web.Api.received my_account_controller.Web.Api.api_fetch
    my_account_controller.Auth.Controller.webauthn_remove
    my_account_controller.Auth.Guards.unlocked_guard register_this_device
    my_account_controller.Auth.Controller.webauthn_register_options
    my_account_controller.Auth.KeyStore.touch my_account_controller.Common.Text-discrete
    native.Mathlib.Decide.ℕ_discrete my_account_controller.Auth.KeyStore.is_idle
    my_account_controller.Auth.WebAuthn.create_registration_options
    my_account_controller.Auth.Controller.webauthn_register
    my_account_controller.Auth.Controller.take_challenge
    my_account_controller.Auth.WebAuthn.verify_registration
    my_account_controller.Web.Device.prime_if my_account_controller.Auth.Guards.admit
    my_account_controller.Auth.Guards.touch_key my_account_controller.Auth.WebAuthn.device_conflict
    my_account_controller.Auth.WebAuthn.new_device my_account_controller.Auth.WebAuthn.remove_device
    my_account_controller.Auth.WebAuthn.verified_or my_account_controller.Database.device_clash
    my_account_controller.Web.Api.body_of my_account_controller.Web.Api.message_of
    my_account_controller.Web.Browser.delete_wrapped_master_password
    my_account_controller.Web.Browser.open_db
    my_account_controller.Web.Browser.save_wrapped_master_password
    my_account_controller.Web.Crypto.derive_wrapping_key get_prf_eval_salt
    my_account_controller.Web.Crypto.hkdf_info my_account_controller.Web.Crypto.hkdf_salt
    my_account_controller.Web.Crypto.to_base64 wrap_master_password
    my_account_controller.Web.Device.forget_this_device
    my_account_controller.Web.Device.keep_password my_account_controller.Web.Device.prime
removed = refl

remove_and_forget_lem_example :
    ((d : TrustedDevice) → Memᴰ d removing.1.server.db.devices → (d.id == listed.id) ≡ false)
    × ((rows : List WrappedMasterPassword) × (removing.1.stored ≡ some rows)
        × (store.get (codes "cred") rows ≡ none))
remove_and_forget_lem_example =
    remove_and_forget_lem client node enrolling http web store authenticator crypto listed after
      removed
