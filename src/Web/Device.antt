-- ===== src/Web/Device.antt =====
-- apps/web/src/lib/webauthn.ts: registering this browser's authenticator, and unlocking with it,
-- over the package @simplewebauthn/browser.
pub mod Roundtrip
use my_account_controller.Common.{
  ℕ, ◌≡◌, Bool, true, false, Option, none, some, List, [], ◌∷◌, Text, length, ltb, Error, plain,
  remote, no_stored_device, or_throw, throw, pure, gets, ◌>>=◌, ◌>>◌,
}
use my_account_controller.Crypto.Encoding.{Bytes}
use my_account_controller.Crypto.Aes.{Node}
use my_account_controller.Database.{Prisma}
use my_account_controller.Auth.WebAuthn.{WebAuthnServer}
use my_account_controller.Auth.Controller.{
  webauthn_register_options, webauthn_register, webauthn_authenticate_options,
}
use my_account_controller.Web.Api.{Http}
use my_account_controller.Web.Crypto.{
  WebCrypto, Wrapped, get_prf_eval_salt, wrap_master_password, unwrap_master_password,
}
use my_account_controller.Web.Storage.{WrappedMasterPassword, ObjectStore}
use my_account_controller.Web.Browser.{
  Browser, Browsing, request, draw_value, save_wrapped_master_password, get_wrapped_master_password,
  list_wrapped_credential_ids, delete_wrapped_master_password,
}

-- `RegistrationResponseJSON`: the credential, `prf.enabled` among its extensions, and the whole.
pub record Registration : Type 0 where
  pub id : Text
  pub prf_enabled : Bool
  pub response : Text

-- `AuthenticationResponseJSON`: the credential, `prf.results.first`, and the whole.
pub record Assertion : Type 0 where
  pub id : Text
  pub prf_output : Option Bytes
  pub response : Text

-- What an assertion is asked for: options of the server or a challenge of the page's own, the
-- credentials that may answer (any, if empty), and the input of the extension PRF.
pub record AssertionRequest : Type 0 where
  pub options : Text
  pub allow_credentials : List Text
  pub prf_salt : Bytes

-- The package with the browser's authenticator; `none` is an exception. The extension PRF gives
-- one output for one credential and one input, if any, and the credential is one of those asked for.
pub record Authenticator : Type 0 where
  pub browser_supports_webauthn : Bool
  pub start_registration : Text → Option Registration
  pub start_authentication : AssertionRequest → Option Assertion
  pub challenge_of : Bytes → Text
  pub prf_of : Text → Bytes → Option Bytes
  pub prf_lem :
      (r : AssertionRequest) {a : Assertion}
      → start_authentication r ≡ some a
      → a.prf_output ≡ prf_of a.id r.prf_salt
  pub allowed_lem :
      (r : AssertionRequest) (id : Text) {a : Assertion}
      → start_authentication r ≡ some a
      → r.allow_credentials ≡ id ∷ []
      → a.id ≡ id

pub record RegisterResult : Type 0 where
  pub device_id : Text
  pub prf_supported : Bool

module _ (web : WebCrypto) (store : ObjectStore) (auth : Authenticator) where
  unfoldable pub has_stored_device : Browsing Bool
  has_stored_device = elim auth.browser_supports_webauthn [
    | false ↦ pure false
    | true ↦ do ids ← list_wrapped_credential_ids store; pure (ltb 0 (length ids))
  ]

  -- The last step of a registration: the password is wrapped if there is a secret.
  unfoldable pub keep_password : Text → Text → Option Bytes → Browsing (Unit {0})
  keep_password id master_password prf_output = elim prf_output [
    | none ↦ pure tt
    | some prf ↦ do
      d ← draw_value
      let wrapped = wrap_master_password web d prf master_password
      save_wrapped_master_password store (record { credential_id = id; wrapped = wrapped })
  ]

  -- The assertion of the page's own that follows a registration, for the secret of the credential.
  unfoldable pub prime : Text → Text → Browsing (Unit {0})
  unfolding keep_password
  prime id master_password = do
    d ← draw_value
    let ask : AssertionRequest = record {
      options = auth.challenge_of (web.random_values d 32);
      allow_credentials = id ∷ [];
      prf_salt = get_prf_eval_salt web;
    }
    assertion ← or_throw (auth.start_authentication ask) remote
    keep_password id master_password assertion.prf_output

  unfoldable pub prime_if : Bool → Text → Text → Browsing (Unit {0})
  prime_if true id master_password = prime id master_password
  prime_if false id master_password = pure tt

  module _ (http : Http) (prisma : Prisma) (node : Node) (server : WebAuthnServer) where
    unfoldable pub register_this_device : Text → Text → Browsing RegisterResult
    register_this_device device_label master_password = do
      options ← request http {A = Text} (webauthn_register_options prisma node server)
      registration ← or_throw (auth.start_registration options) remote
      device ←
          request http {A = Text × Text}
            (webauthn_register prisma node server device_label registration.response)
      prime_if registration.prf_enabled registration.id master_password
      pure (record { device_id = device.0; prf_supported = registration.prf_enabled })

    -- The stored password of the credential that answered; without it, or without a secret, the
    -- user has to type the password.
    unfoldable pub unwrap_stored : Assertion → Option WrappedMasterPassword → Browsing Text
    unwrap_stored assertion none = throw (plain no_stored_device)
    unwrap_stored assertion (some entry) = elim assertion.prf_output [
      | none ↦ throw (plain no_stored_device)
      | some prf ↦ or_throw (unwrap_master_password web prf entry.wrapped) remote
    ]

    unfoldable pub authenticate_with_stored_device : Browsing (Assertion × Text)
    unfolding unwrap_stored
    authenticate_with_stored_device = do
      options ← request http {A = Text} (webauthn_authenticate_options prisma node server)
      let ask : AssertionRequest = record {
        options = options;
        allow_credentials = [];
        prf_salt = get_prf_eval_salt web;
      }
      assertion ← or_throw (auth.start_authentication ask) remote
      entry ← get_wrapped_master_password store assertion.id
      password ← unwrap_stored assertion entry
      pure (assertion, password)

  unfoldable pub forget_this_device : Text → Browsing (Unit {0})
  forget_this_device credential_id = delete_wrapped_master_password store credential_id
