-- ===== src/Web/Login.antt =====
-- The login page, apps/web/src/app/login/page.tsx: its state and its events, and the unlocking with
-- the stored device. React renders between two events.
pub mod Orderly
pub mod Requests
pub mod Biometric
use my_account_controller.Common.{
  ℕ, ◌≡◌, ◌≢◌, Bool, true, false, not, ◌&&◌, ◌||◌, Option, none, some, List, [], ◌∷◌, ◌++◌, Text,
  pure, ◌>>=◌,
}
use my_account_controller.Crypto.{CryptoService}
use my_account_controller.Crypto.Aes.{Node}
use my_account_controller.Database.{Prisma}
use my_account_controller.Auth.WebAuthn.{WebAuthnServer}
use my_account_controller.Auth.Controller.{webauthn_authenticate}
use my_account_controller.Web.Api.{Http}
use my_account_controller.Web.Crypto.{WebCrypto}
use my_account_controller.Web.Storage.{ObjectStore}
use my_account_controller.Web.Browser.{Browsing, request}
use my_account_controller.Web.Device.{Authenticator, authenticate_with_stored_device}

-- The parameter `step` of the address.
pub data LoginStep : Type 0 where
  google setup unlock : LoginStep

-- A request that the page sends: to `/auth/google/start`, to `/auth/master-password/setup` or
-- `/auth/unlock` with the password, or the login with the stored device.
pub data LoginRequest : Type 0 where
  google_start : LoginRequest
  setup_password unlock_password : Text → LoginRequest
  biometric : LoginRequest

-- `running` lists the requests without an answer, `sent` all that were sent, the latest first, each
-- with the state of the box that the user confirms at it.
pub record Page : Type 0 where
  pub step : LoginStep
  pub error : Option Text
  pub submitting : Bool
  pub can_use_biometric : Bool
  pub confirmed_no_recovery : Bool
  pub running : List LoginRequest
  pub sent : List (LoginRequest × Bool)

unfoldable pub opened : LoginStep → Option Text → Page
opened step error = record {
  step = step;
  error = error;
  submitting = false;
  can_use_biometric = false;
  confirmed_no_recovery = false;
  running = [];
  sent = [];
}

-- `step === "setup" ? "/auth/master-password/setup" : "/auth/unlock"`
unfoldable pub endpoint : LoginStep → Text → LoginRequest
endpoint setup password = setup_password password
endpoint step password = unlock_password password

abbrev pub is_setup : LoginStep → Bool
is_setup setup = true
is_setup step = false

-- The button that submits: `submitting || (step === "setup" && !confirmedNoRecovery)`
unfoldable pub submit_disabled : Page → Bool
submit_disabled p = p.submitting || (is_setup p.step && not p.confirmed_no_recovery)

abbrev pub started : LoginRequest → Page → Page
started r p = record p {
  error = none;
  submitting = true;
  running = r ∷ p.running;
  sent = (r, p.confirmed_no_recovery) ∷ p.sent;
}

-- `handleGoogleLogin` up to its request: it does not set `submitting`.
unfoldable pub google_login : Page → Page
google_login p = record p {
  error = none;
  running = google_start ∷ p.running;
  sent = (google_start, p.confirmed_no_recovery) ∷ p.sent;
}

-- Its rest: the page is left for the address of the answer, or shows the error.
unfoldable pub google_answered : Option Text → Page → Page
google_answered none p = p
google_answered (some message) p = record p { error = some message }

-- `handlePasswordSubmit` and `handleBiometricUnlock` up to their request.
unfoldable pub password_submit : Text → Page → Page
password_submit password p = started (endpoint p.step password) p

unfoldable pub biometric_submit : Page → Page
biometric_submit p = started biometric p

-- The rest of these two, after the answer: the error if there is one, and `finally`.
unfoldable pub answered : Option Text → Page → Page
answered none p = record p { submitting = false }
answered (some message) p = record p { error = some message; submitting = false }

-- What the page lets happen. The first page has the button of the Google login alone, which is
-- never disabled, and after an answer the page may be used until the browser has left it. The other
-- two have the form; the stored device is looked for when the vault is to be unlocked, and then the
-- button for it is shown. Any request that runs may be answered.
pub data Step : Page → Page → Type 0 where
  found_device :
      (p : Page) (b : Bool) → p.step ≡ unlock → Step p (record p { can_use_biometric = b })
  confirm : (p : Page) (b : Bool) → p.step ≡ setup → Step p (record p { confirmed_no_recovery = b })
  login_with_google : (p : Page) → p.step ≡ google → Step p (google_login p)
  google_answer :
      (p : Page) (result : Option Text) (before after : List LoginRequest)
      → p.running ≡ before ++ (google_start ∷ after)
      → Step p (google_answered result (record p { running = before ++ after }))
  submit :
      (p : Page) (password : Text)
      → p.step ≢ google
      → submit_disabled p ≡ false
      → Step p (password_submit password p)
  use_device :
      (p : Page)
      → p.step ≢ google
      → p.can_use_biometric ≡ true
      → p.submitting ≡ false
      → Step p (biometric_submit p)
  answer :
      (p : Page) (result : Option Text) (r : LoginRequest) (before after : List LoginRequest)
      → r ≢ google_start
      → p.running ≡ before ++ (r ∷ after)
      → Step p (answered result (record p { running = before ++ after }))

pub data Reach (p : Page) : Page → Type 0 where
  here : Reach p p
  later : {q r : Page} → Reach p q → Step q r → Reach p r

-- The calls of `handleBiometricUnlock`.
unfoldable pub biometric_unlock :
    WebCrypto
    → ObjectStore
    → Authenticator
    → Http
    → Prisma
    → Node
    → WebAuthnServer
    → CryptoService
    → Browsing (Unit {0})
biometric_unlock web store auth http prisma node server crypto = do
  (assertion, password) ← authenticate_with_stored_device web store auth http prisma node server
  request http {A = Unit {0}}
      (webauthn_authenticate prisma node server crypto assertion.response password)
