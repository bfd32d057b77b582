-- ===== src/Auth/Controller/Ownership.antt =====
-- Whose key a session has after a login by a trusted device (auth/auth.controller.ts).
use my_account_controller.Common.{
  ◌≡◌, ◌≢◌, false, some, [], ◌==◌, Text, ok, err, arith, unauthorized, wrong_master_password,
}
use my_account_controller.Database.{Prisma, User, TrustedDevice}
use my_account_controller.Crypto.{CryptoService}
use my_account_controller.Crypto.Encoding.{Bytes}
use my_account_controller.Crypto.Aes.{Node}
use my_account_controller.Auth.Guards.Laws.{IsOpen}
use my_account_controller.Auth.Service
use my_account_controller.Auth.WebAuthn
use my_account_controller.Auth.WebAuthn.{WebAuthnServer}
use my_account_controller.Auth.Controller.{take_challenge, webauthn_authenticate}
use my_account_controller.World.{World}

module _ (prisma : Prisma) (node : Node) (server : WebAuthnServer) (crypto : CryptoService) where
  -- A check of a device changes the table of devices alone.
  verify_frame :
      (challenge response : Text) (w : World) {device : TrustedDevice} {w' : World}
      → WebAuthn.verify_authentication prisma node server challenge response w ≡ (ok device, w')
      → w' ≡ record w { db = record w.db { devices = w'.db.devices } }
  unfolding WebAuthn.verify_authentication
  verify_frame challenge response w h = ground arith

  -- In a session that is open for one user, a login by a device of another user with a wrong
  -- master password fails, and yet leaves the session open for the owner of the device, with the
  -- key of the first user.
  pub webauthn_authenticate_wrong_password :
      (response password owner challenge : Text) (w : World) {w1 w2 : World} {key : Bytes}
      {device : TrustedDevice} {user : User}
      → IsOpen w owner key
      → take_challenge w ≡ (ok challenge, w1)
      → WebAuthn.verify_authentication prisma node server challenge response w1 ≡ (ok device, w2)
      → device.user_id ≢ []
      → prisma.users.find_first (λ u. u.id == device.user_id) w.db.users ≡ some user
      → crypto.verify_master_password password user.master_password_hash ≡ false
      → (w' : World) × (webauthn_authenticate prisma node server crypto response password w
          ≡ (err (unauthorized wrong_master_password), w'))
        × IsOpen w' device.user_id key
  unfolding take_challenge webauthn_authenticate Service.unlock
  webauthn_authenticate_wrong_password response password owner challenge w {w1} {w2}
        {device = device} open_now challenged verified named found wrong =
      let frame = verify_frame challenge response w1 verified in
      (
        record w2 { session = record w2.session { user_id = some device.user_id } },
        ground (arith, frame),
        (
          ground (arith, frame),
          ground (arith, frame),
          (open_now.2.0, ground (arith, frame), ground (arith, frame), open_now.2.3),
        ),
      )
