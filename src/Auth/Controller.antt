-- ===== src/Auth/Controller.antt =====
-- auth/auth.controller.ts: the routes under /auth, each with its guard and its handler.
pub mod Ownership
use my_account_controller.Common.{
  ℕ, Bool, false, Option, none, some, List, Text, Error, unauthorized, options_first, given,
  or_throw, pure, gets, catching, ◌>>=◌, ◌>>◌,
}
use my_account_controller.Database.{Prisma}
use my_account_controller.Crypto.{CryptoService}
use my_account_controller.Crypto.Aes.{Node}
use my_account_controller.Auth.Google.{GoogleClient}
use my_account_controller.Auth.Guards.{logged_in_guard, unlocked_guard}
use my_account_controller.Auth.Service
use my_account_controller.Auth.Service.{CallbackResult, logged_in, needs_master_password_setup}
use my_account_controller.Auth.WebAuthn
use my_account_controller.Auth.WebAuthn.{WebAuthnServer, DeviceSummary}
use my_account_controller.World.{World, Action, change_session}

-- The redirect to /login: `?step=setup`, `?step=unlock` or `?error=` with the message.
pub data Redirect : Type 0 where
  step_setup step_unlock : Redirect
  login_error : Error → Redirect

unfoldable pub step_of : CallbackResult → Redirect
step_of logged_in = step_unlock
step_of (needs_master_password_setup email) = step_setup

unfoldable pub google_start : GoogleClient → Action Text
google_start google = Service.create_google_auth_url google

unfoldable pub google_callback : Prisma → GoogleClient → Text → Option Text → Action Redirect
unfolding step_of
google_callback prisma google code state =
    catching
      (do result ← Service.handle_google_callback prisma google code state; pure (step_of result))
      (λ e. pure (login_error e))

-- `logout`: the key, the session and the cookie go. A destroyed session reads as a new one.
unfoldable pub logout : Action (Unit {0})
logout = do
  Service.logout
  change_session (λ s. record s {
    user_id = none;
    unlocked = false;
    oauth_state = none;
    gmail_oauth_state = none;
    pending_google = none;
    current_webauthn_challenge = none;
  })

unfoldable pub lock : Action (Unit {0})
lock = do user_id ← logged_in_guard; Service.lock

unfoldable pub me : Action (Text × Bool)
me = do user_id ← logged_in_guard; unlocked ← Service.check_still_unlocked; pure (user_id, unlocked)

unfoldable pub settings : Prisma → Action ℕ
settings prisma = do user_id ← logged_in_guard; Service.get_settings prisma user_id

unfoldable pub update_auto_lock_minutes : Prisma → ℕ → Action ℕ
update_auto_lock_minutes prisma minutes = do
  (user_id, key) ← unlocked_guard
  Service.update_auto_lock_minutes prisma user_id minutes
  pure minutes

module _ (prisma : Prisma) (crypto : CryptoService) where
  unfoldable pub setup_master_password : Text → Action (Text × Text)
  setup_master_password password = Service.setup_master_password prisma crypto password

  unfoldable pub change_master_password : Text → Text → Action ℕ
  change_master_password current new = do
    (user_id, key) ← unlocked_guard
    Service.change_master_password prisma crypto user_id current new

  unfoldable pub unlock : Text → Action (Unit {0})
  unlock password = do user_id ← logged_in_guard; Service.unlock prisma crypto user_id password

-- The challenge of the session, which is used once.
unfoldable pub take_challenge : Action Text
take_challenge = do
  challenge ← gets (λ w. w.session.current_webauthn_challenge)
  expected ← or_throw (given challenge) (unauthorized options_first)
  change_session (λ s. record s { current_webauthn_challenge = none })
  pure expected

module _ (prisma : Prisma) (node : Node) (server : WebAuthnServer) where
  unfoldable pub webauthn_devices : Action (List DeviceSummary)
  webauthn_devices = do
    (user_id, key) ← unlocked_guard
    WebAuthn.list_devices prisma node server user_id

  unfoldable pub webauthn_register_options : Action Text
  webauthn_register_options = do
    (user_id, key) ← unlocked_guard
    options ← WebAuthn.create_registration_options prisma node server user_id
    change_session (λ s. record s { current_webauthn_challenge = some (server.challenge options) })
    pure options

  unfoldable pub webauthn_register : Text → Text → Action (Text × Text)
  webauthn_register device_label response = do
    (user_id, key) ← unlocked_guard
    expected ← take_challenge
    device ← WebAuthn.verify_registration prisma node server user_id device_label expected response
    pure (device.id, device.device_label)

  unfoldable pub webauthn_authenticate_options : Action Text
  webauthn_authenticate_options = do
    options ← WebAuthn.create_authentication_options prisma node server
    change_session (λ s. record s { current_webauthn_challenge = some (server.challenge options) })
    pure options

  unfoldable pub webauthn_authenticate : CryptoService → Text → Text → Action (Unit {0})
  webauthn_authenticate crypto response password = do
    expected ← take_challenge
    device ← WebAuthn.verify_authentication prisma node server expected response
    change_session (λ s. record s { user_id = some device.user_id })
    Service.unlock prisma crypto device.user_id password

  unfoldable pub webauthn_remove : Text → Action (Unit {0})
  webauthn_remove device_id = do
    (user_id, key) ← unlocked_guard
    WebAuthn.remove_device prisma node server user_id device_id
