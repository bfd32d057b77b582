-- ===== src/Web/Settings/Removal.antt =====
-- Removing a trusted device (apps/web/src/app/(app)/settings/page.tsx).
use my_account_controller.Common.{
  ◌≡◌, refl, arith, ◌∙◌, false, none, some, List, Text, ok, ◌==◌, ◌&&◌, Result-cases, Option-cases,
  inl, inr, Memᴰ, ==_yes,
}
use my_account_controller.Crypto.Aes.{Node}
use my_account_controller.Database.{Prisma, TrustedDevice}
use my_account_controller.Auth.Guards.{unlocked_guard}
use my_account_controller.Auth.WebAuthn.{WebAuthnServer, DeviceSummary}
use my_account_controller.Auth.WebAuthn
use my_account_controller.Auth.Controller as Routes
use my_account_controller.Crypto.{CryptoService}
use my_account_controller.World.{World}
use my_account_controller.Web.Api.{Http, received-ok, received-err}
use my_account_controller.Web.Crypto.{WebCrypto}
use my_account_controller.Web.Storage.{WrappedMasterPassword, ObjectStore}
use my_account_controller.Web.Browser.{Browser, request, delete_wrapped_master_password}
use my_account_controller.Web.Device.{Authenticator, forget_this_device}
use my_account_controller.Web.Settings.{remove_and_forget}

module _ (prisma : Prisma) (node : Node) (server : WebAuthnServer) where
  -- A removal that goes through leaves no device of that id.
  webauthn_remove-gone :
      (id : Text) (w : World) {w' : World}
      → Routes.webauthn_remove prisma node server id w ≡ (ok tt, w')
      → (d : TrustedDevice) → Memᴰ d w'.db.devices
      → (d.id == id) ≡ false
  unfolding Routes.webauthn_remove WebAuthn.remove_device
  webauthn_remove-gone id w {w'} h d m = elim (Result-cases (unlocked_guard w)) [
    | inr (e, v, refused) ↦ absurd (ground (arith, refused))
    | inl ((user_id, key), v, admitted) ↦
        elim (Option-cases
          (prisma.devices.find_first (λ d. d.id == id && d.user_id == user_id) v.db.devices)) [
            | inl missing ↦ absurd (ground (arith, admitted, missing))
            | inr (found, there) ↦
                let rows = prisma.devices.delete_many (λ x. x.id == id) v.db.devices in
                let e : w'.db.devices ≡ rows = ground (arith, admitted, there) in
                (prisma.devices.delete_many_only (λ x. x.id == id) v.db.devices {r = d}
                  (rw (← e) m)).1
          ]
  ]

  module _ (http : Http) (web : WebCrypto) (store : ObjectStore) (auth : Authenticator)
      (crypto : CryptoService) where
    -- If the removal of a device goes through, then the server has no device of that id, and the
    -- browser holds no password for its credential.
    pub remove_and_forget_lem :
        (device : DeviceSummary) (b : Browser) {b' : Browser}
        → remove_and_forget http prisma crypto node server web store auth device b ≡ (ok tt, b')
        → ((d : TrustedDevice) → Memᴰ d b'.server.db.devices → (d.id == device.id) ≡ false)
          × ((rows : List WrappedMasterPassword) × (b'.stored ≡ some rows)
              × (store.get device.webauthn_credential_id rows ≡ none))
    unfolding remove_and_forget forget_this_device delete_wrapped_master_password request
    remove_and_forget_lem device b {b'} h =
        let credential = device.webauthn_credential_id in
        elim (Result-cases (Routes.webauthn_remove prisma node server device.id b.server)) [
          | inr (e, w, refused) ↦
              let (status, message, seen, high) = received-err http {A = Unit {0}} e in
              absurd (ground (arith, refused, seen))
          | inl (u, w, removed) ↦ elim (Option-cases b.stored) [
            | inl closed ↦ absurd (ground (arith, removed, received-ok http u))
            | inr (rows, opened) ↦
                let server : b'.server ≡ w = ground (arith, removed, received-ok http u, opened) in
                (
                  λ d m. webauthn_remove-gone device.id b.server removed d (rw (← server) m),
                  (
                    store.delete credential rows,
                    ground (arith, removed, received-ok http u, opened),
                    store.get-delete credential credential rows
                        ∙ (ground (arith, ==_yes {a = credential} refl)),
                  ),
                )
          ]
        ]
