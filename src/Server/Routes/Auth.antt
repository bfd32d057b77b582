-- ===== src/Server/Routes/Auth.antt =====
-- The routes under /auth (apps/api/src/auth/auth.controller.ts).
use my_account_controller.Common.{ℕ, refl, arith, Option, some, Text, pure, ◌>>=◌, ◌>>◌}
use my_account_controller.Crypto.{CryptoService}
use my_account_controller.Crypto.Aes.{Node}
use my_account_controller.Database.{Prisma}
use my_account_controller.Auth.Google.{GoogleClient}
use my_account_controller.Auth.Service
use my_account_controller.Auth.WebAuthn
use my_account_controller.Auth.WebAuthn.{WebAuthnServer}
use my_account_controller.Auth.Controller
use my_account_controller.Server.Keeps.{
  Keeps, same_keys, Keeps->>=, unlocked_route, logged_in_route, touch-KeysFit, delete-KeysFit,
}
use my_account_controller.Server.Keys.Auth.{
  Keeps-lock, Keeps-unlock, Keeps-setup, Keeps-change, Keeps-minutes,
}
use my_account_controller.Server.Keys.Devices.{
  take_challenge-keys, get_settings-keys, handle_google_callback-keys,
  create_registration_options-keys, verify_registration-keys, verify_authentication-keys,
  remove_device-keys,
}
use my_account_controller.World.{change_session}

pub lock : Keeps Controller.lock
unfolding Controller.lock
lock = logged_in_route (λ u. Service.lock) (λ u. Keeps-lock)

pub logout : Keeps Controller.logout
unfolding Controller.logout Service.logout
logout = record { at = λ w v. delete-KeysFit w.session.id w.keys v }

check_still_unlocked : Keeps Service.check_still_unlocked
unfolding Service.check_still_unlocked
check_still_unlocked = record {
  at = λ w v sid e h. ground (arith, v sid e, touch-KeysFit w.session.id w.now w.keys v sid e);
}

pub me : Keeps Controller.me
unfolding Controller.me
me =
    logged_in_route (λ u. Service.check_still_unlocked >>= (λ b. pure (u, b)))
      (λ u.
        Keeps->>= Service.check_still_unlocked (λ b. pure (u, b)) check_still_unlocked
          (λ b. same_keys _ (λ w. refl)))

pub google_start : (google : GoogleClient) → Keeps (Controller.google_start google)
unfolding Controller.google_start Service.create_google_auth_url
google_start google = same_keys _ (λ w. refl)

module _ (prisma : Prisma) where
  pub settings : Keeps (Controller.settings prisma)
  unfolding Controller.settings
  settings =
      logged_in_route (λ u. Service.get_settings prisma u)
        (λ u. same_keys _ (get_settings-keys prisma u))

  pub google_callback :
      (google : GoogleClient) (code : Text) (state : Option Text)
      → Keeps (Controller.google_callback prisma google code state)
  unfolding Controller.google_callback
  google_callback google code state =
      same_keys _ (λ w. ground (arith, handle_google_callback-keys prisma google code state w))

  pub update_auto_lock_minutes :
      (minutes : ℕ) → Keeps (Controller.update_auto_lock_minutes prisma minutes)
  unfolding Controller.update_auto_lock_minutes
  update_auto_lock_minutes minutes =
      unlocked_route (λ u. Service.update_auto_lock_minutes prisma u.0 minutes >> pure minutes)
        (λ u.
          Keeps->>= (Service.update_auto_lock_minutes prisma u.0 minutes) (λ x. pure minutes)
            (Keeps-minutes prisma u.0 minutes) (λ x. same_keys _ (λ w. refl)))

  module _ (crypto : CryptoService) where
    pub setup_master_password :
        (password : Text) → Keeps (Controller.setup_master_password prisma crypto password)
    unfolding Controller.setup_master_password
    setup_master_password password = Keeps-setup prisma crypto password

    pub change_master_password :
        (current new : Text) → Keeps (Controller.change_master_password prisma crypto current new)
    unfolding Controller.change_master_password
    change_master_password current new =
        unlocked_route (λ u. Service.change_master_password prisma crypto u.0 current new)
          (λ u. Keeps-change prisma crypto u.0 current new)

    pub unlock : (password : Text) → Keeps (Controller.unlock prisma crypto password)
    unfolding Controller.unlock
    unlock password =
        logged_in_route (λ u. Service.unlock prisma crypto u password)
          (λ u. Keeps-unlock prisma crypto u password)

  module _ (node : Node) (server : WebAuthnServer) where
    pub webauthn_devices : Keeps (Controller.webauthn_devices prisma node server)
    unfolding Controller.webauthn_devices WebAuthn.list_devices
    webauthn_devices =
        unlocked_route (λ u. WebAuthn.list_devices prisma node server u.0)
          (λ u. same_keys _ (λ w. refl))

    pub webauthn_register_options : Keeps (Controller.webauthn_register_options prisma node server)
    unfolding Controller.webauthn_register_options
    webauthn_register_options =
        unlocked_route
          (λ u. WebAuthn.create_registration_options prisma node server u.0 >>= (λ options.
            change_session
              (λ s. record s { current_webauthn_challenge = some (server.challenge options) })
            >> pure options))
          (λ u.
            same_keys _
              (λ w. ground (arith, create_registration_options-keys prisma node server u.0 w)))

    pub webauthn_register :
        (label response : Text)
        → Keeps (Controller.webauthn_register prisma node server label response)
    unfolding Controller.webauthn_register
    webauthn_register label response =
        unlocked_route
          (λ u. Controller.take_challenge >>= (λ expected.
            WebAuthn.verify_registration prisma node server u.0 label expected response
            >>= (λ device. pure (device.id, device.device_label))))
          (λ u.
            Keeps->>= Controller.take_challenge
              (λ expected.
                WebAuthn.verify_registration prisma node server u.0 label expected response
                >>= (λ device. pure (device.id, device.device_label)))
              (same_keys _ take_challenge-keys)
              (λ expected. same_keys _ (λ w. ground (
                arith,
                verify_registration-keys prisma node server u.0 label expected response w,
              ))))

    pub webauthn_authenticate_options :
        Keeps (Controller.webauthn_authenticate_options prisma node server)
    unfolding Controller.webauthn_authenticate_options WebAuthn.create_authentication_options
    webauthn_authenticate_options = same_keys _ (λ w. refl)

    pub webauthn_authenticate :
        (crypto : CryptoService) (response password : Text)
        → Keeps (Controller.webauthn_authenticate prisma node server crypto response password)
    unfolding Controller.webauthn_authenticate
    webauthn_authenticate crypto response password =
        Keeps->>= Controller.take_challenge
          (λ expected.
            WebAuthn.verify_authentication prisma node server expected response >>= (λ device.
              change_session (λ s. record s { user_id = some device.user_id })
              >> Service.unlock prisma crypto device.user_id password))
          (same_keys _ take_challenge-keys)
          (λ expected.
            Keeps->>= (WebAuthn.verify_authentication prisma node server expected response)
              (λ device.
                change_session (λ s. record s { user_id = some device.user_id })
                >> Service.unlock prisma crypto device.user_id password)
              (same_keys _ (verify_authentication-keys prisma node server expected response))
              (λ device.
                Keeps->>= (change_session (λ s. record s { user_id = some device.user_id }))
                  (λ x. Service.unlock prisma crypto device.user_id password)
                  (same_keys _ (λ w. refl))
                  (λ x. Keeps-unlock prisma crypto device.user_id password)))

    pub webauthn_remove : (id : Text) → Keeps (Controller.webauthn_remove prisma node server id)
    unfolding Controller.webauthn_remove
    webauthn_remove id =
        unlocked_route (λ u. WebAuthn.remove_device prisma node server u.0 id)
          (λ u. same_keys _ (remove_device-keys prisma node server u.0 id))
