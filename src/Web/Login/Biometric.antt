-- ===== src/Web/Login/Biometric.antt =====
-- Unlocking with the stored device, in the browser and on the server (apps/web/src/lib/webauthn.ts,
-- apps/web/src/app/login/page.tsx, apps/api/src/auth/auth.controller.ts).
use my_account_controller.Common.{
  ◌≡◌, refl, arith, true, some, Text, ◌==◌, ok, Result-cases, Memᴰ, inl, inr, eq_of_==,
}
use my_account_controller.Crypto.{CryptoService}
use my_account_controller.Crypto.Encoding.{Bytes, to_well_formed}
use my_account_controller.Crypto.Aes.{Node}
use my_account_controller.Database.{Prisma, User}
use my_account_controller.Auth.KeyStore
use my_account_controller.Auth.Service
use my_account_controller.Auth.Service.Setup.{unlock_lem}
use my_account_controller.Auth.WebAuthn.{WebAuthnServer}
use my_account_controller.Auth.WebAuthn
use my_account_controller.Auth.Controller.{take_challenge, webauthn_authenticate}
use my_account_controller.World.{World}
use my_account_controller.Web.Api.{Http, received-err}
use my_account_controller.Web.Crypto.{WebCrypto, without_mark, get_prf_eval_salt}
use my_account_controller.Web.Storage.{ObjectStore}
use my_account_controller.Web.Browser.{Browser, request}
use my_account_controller.Web.Device.{
  Registration, Assertion, Authenticator, RegisterResult, register_this_device,
  authenticate_with_stored_device,
}
use my_account_controller.Web.Device.Roundtrip.{Enrolled, authenticate-register}
use my_account_controller.Web.Login.{biometric_unlock}

module _ (prisma : Prisma) (node : Node) (server : WebAuthnServer) (crypto : CryptoService) where
  -- The session is open for a user, with the key of a password that the user's hash verifies.
  abbrev pub OpenWith : Text → World → Type 0
  OpenWith password w =
      (u : User) × Memᴰ u w.db.users
      × (w.session.user_id ≡ some u.id)
      × (w.session.unlocked ≡ true)
      × (crypto.verify_master_password password u.master_password_hash ≡ true)
      × (KeyStore.get w.session.id w.keys
          ≡ some (crypto.derive_encryption_key password u.master_kdf_salt))

  unlock-OpenWith :
      (user_id password : Text) (w : World) {w' : World}
      → w.session.user_id ≡ some user_id
      → Service.unlock prisma crypto user_id password w ≡ (ok tt, w')
      → OpenWith password w'
  unlock-OpenWith user_id password w {w'} logged h =
      let (u, found, verified, keyed, session, db) =
        (unlock_lem prisma crypto password user_id w).0 w' h in
      let (m, e) = prisma.users.find_first_some (λ x. x.id == user_id) w.db.users found in
      let id : u.id ≡ user_id = eq_of_== e in
      (
        u,
        rw db m,
        ground (arith, session, logged, id),
        ground (arith, session),
        verified,
        ground (arith, session, keyed),
      )

  authenticate-OpenWith :
      (response password : Text) (w : World) {w' : World}
      → webauthn_authenticate prisma node server crypto response password w ≡ (ok tt, w')
      → OpenWith password w'
  unfolding webauthn_authenticate
  authenticate-OpenWith response password w {w'} h = elim (Result-cases (take_challenge w)) [
    | inr (e, v, failed) ↦ absurd (ground (arith, failed))
    | inl (expected, v, taken) ↦
        elim (Result-cases
          (WebAuthn.verify_authentication prisma node server expected response v)) [
            | inr (e, v', failed) ↦ absurd (ground (arith, taken, failed))
            | inl (device, v', verified) ↦
                unlock-OpenWith device.user_id password
                  (record v' { session = record v'.session { user_id = some device.user_id } })
                  {w' = w'} refl (ground (arith, taken, verified))
          ]
  ]

  module _ (web : WebCrypto) (store : ObjectStore) (auth : Authenticator) (http : Http) where
    -- If a registration that went through had the extension PRF and a secret for its credential,
    -- and the unlocking with that credential goes through later in the same browser, then the
    -- session is open for a user whose hash verifies the password that was typed at the
    -- registration (but for lone surrogates and a byte order mark), with the key of that password.
    pub biometric_unlock-OpenWith :
        (label password : Text) (b c : Browser) {r : RegisterResult} {b' c1 c' : Browser}
        {registration : Registration} {out : Bytes} {assertion : Assertion} {unwrapped : Text}
        → Enrolled web store auth http prisma node server b registration
        → register_this_device web store auth http prisma node server label password b ≡ (ok r, b')
        → registration.prf_enabled ≡ true
        → auth.prf_of registration.id (get_prf_eval_salt web) ≡ some out
        → c.stored ≡ b'.stored
        → authenticate_with_stored_device web store auth http prisma node server c
          ≡ (ok (assertion, unwrapped), c1)
        → assertion.id ≡ registration.id
        → biometric_unlock web store auth http prisma node server crypto c ≡ (ok tt, c')
        → OpenWith (without_mark (to_well_formed password)) c'.server
    unfolding biometric_unlock request
    biometric_unlock-OpenWith label password b c {r} {b'} {c1} {c'} {registration} {out} {assertion}
          {unwrapped} enrolled registered enabled secret later login same unlocked =
        let text : unwrapped ≡ without_mark (to_well_formed password) =
          authenticate-register web store auth http prisma node server label password b c enrolled
            registered enabled secret later login same in
        elim (Result-cases (
          webauthn_authenticate prisma node server crypto assertion.response unwrapped c1.server)) [
            | inl (done, w, went) ↦
                let end : c'.server ≡ w = ground (arith, login, went) in
                rw (end, ← text) (authenticate-OpenWith assertion.response unwrapped c1.server went)
            | inr (e, w, failed) ↦
                let (status, message, refused, high) = received-err http {A = Unit {0}} e in
                absurd (ground (arith, login, failed, refused))
          ]
