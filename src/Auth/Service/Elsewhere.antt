-- ===== src/Auth/Service/Elsewhere.antt =====
-- The other sessions at a change of the master password (auth/auth.service.ts).
use my_account_controller.Common.{ℕ, ◌≡◌, ◌≢◌, arith, Text, ok}
use my_account_controller.Crypto.{CryptoService}
use my_account_controller.Crypto.Encoding.{Bytes}
use my_account_controller.Database.{Prisma}
use my_account_controller.Auth.KeyStore
use my_account_controller.Auth.KeyStore.Laws.{lookup-insert}
use my_account_controller.Auth.Guards.Laws.{IsOpen}
use my_account_controller.Auth.Session.{Session}
use my_account_controller.Auth.Service.{change_master_password}
use my_account_controller.Auth.Service.Change.{body_keeps, change-Succeeded, drawn}
use my_account_controller.World.{World}

module _ (prisma : Prisma) (crypto : CryptoService) (user_id current new : Text) where
  -- A change of the master password that goes through leaves every other session as it was: one
  -- that was open with a key is open with the same key, though the accounts of the user are stored
  -- under the new key.
  pub change_master_password_elsewhere :
      (w : World) (s : Session) (user : Text) (key : Bytes) {n : ℕ} {w' : World}
      → s.id ≢ w.session.id
      → IsOpen (record w { session = s }) user key
      → change_master_password prisma crypto user_id current new w ≡ (ok n, w')
      → IsOpen (record w' { session = s }) user key
  unfolding KeyStore.set
  change_master_password_elsewhere w s user key {n} {w'} other
        (logged, flag, (e, found, fresh, same)) h =
      let (u, v, there, verified, short, ran, now) =
        change-Succeeded prisma crypto user_id current new w h in
      let (keys, session, time) = body_keeps prisma crypto user_id current new u w (drawn w) in
      let new_key = crypto.derive_encryption_key new (crypto.generate_kdf_salt w.draws) in
      (
        logged,
        flag,
        (
          e,
          ground (
            arith,
            now,
            keys,
            session,
            ran,
            found,
            lookup-insert v.session.id s.id
                (record {
                  key = new_key;
                  auto_lock_minutes = u.auto_lock_minutes;
                  last_activity_at = v.now;
                })
                v.keys,
          ),
          ground (arith, now, time, ran, fresh),
          same,
        ),
      )
