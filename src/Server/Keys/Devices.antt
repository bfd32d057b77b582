-- ===== src/Server/Keys/Devices.antt =====
-- The login with Google and the trusted devices (apps/api/src/auth) and the key store.
use my_account_controller.Common.{◌≡◌, arith, Option, Text}
use my_account_controller.Crypto.Aes.{Node}
use my_account_controller.Database.{Prisma}
use my_account_controller.Auth.Google.{GoogleClient}
use my_account_controller.Auth.Service.{handle_google_callback, get_settings}
use my_account_controller.Auth.WebAuthn.{WebAuthnServer}
use my_account_controller.Auth.WebAuthn
use my_account_controller.Auth.Controller.{take_challenge}
use my_account_controller.World.{World}

pub take_challenge-keys : (w : World) → (take_challenge w).1.keys ≡ w.keys
unfolding take_challenge
take_challenge-keys w = ground arith

module _ (prisma : Prisma) where
  pub get_settings-keys :
      (user_id : Text) (w : World) → (get_settings prisma user_id w).1.keys ≡ w.keys
  unfolding get_settings
  get_settings-keys user_id w = ground arith

  pub handle_google_callback-keys :
      (google : GoogleClient) (code : Text) (state : Option Text) (w : World)
      → (handle_google_callback prisma google code state w).1.keys ≡ w.keys
  unfolding handle_google_callback
  handle_google_callback-keys google code state w = ground arith

  module _ (node : Node) (server : WebAuthnServer) where
    pub create_registration_options-keys :
        (user_id : Text) (w : World)
        → (WebAuthn.create_registration_options prisma node server user_id w).1.keys ≡ w.keys
    unfolding WebAuthn.create_registration_options
    create_registration_options-keys user_id w = ground arith

    pub verify_registration-keys :
        (user_id label expected response : Text) (w : World)
        → (WebAuthn.verify_registration prisma node server user_id label expected response w).1.keys
          ≡ w.keys
    unfolding WebAuthn.verify_registration WebAuthn.device_conflict
    verify_registration-keys user_id label expected response w = ground arith

    pub verify_authentication-keys :
        (expected response : Text) (w : World)
        → (WebAuthn.verify_authentication prisma node server expected response w).1.keys ≡ w.keys
    unfolding WebAuthn.verify_authentication
    verify_authentication-keys expected response w = ground arith

    pub remove_device-keys :
        (user_id id : Text) (w : World)
        → (WebAuthn.remove_device prisma node server user_id id w).1.keys ≡ w.keys
    unfolding WebAuthn.remove_device
    remove_device-keys user_id id w = ground arith
