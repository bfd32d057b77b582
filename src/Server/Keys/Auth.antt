-- ===== src/Server/Keys/Auth.antt =====
-- The authentication service (apps/api/src/auth/auth.service.ts) and the key store.
use my_account_controller.Common.{ℕ, arith, Text, Option-cases, Result-cases, inl, inr, ◌==◌}
use my_account_controller.Crypto.{CryptoService}
use my_account_controller.Database.{Prisma}
use my_account_controller.Auth.Service.{
  lock, unlock, setup_master_password, change_master_password, update_auto_lock_minutes, new_user,
  default_auto_lock_minutes,
}
use my_account_controller.Auth.Service.Change.{
  drawn, body_keeps, change_master_password_atomic, change-Succeeded,
}
use my_account_controller.Server.Keeps.{
  KeysFit, minutes-KeysFit, Keeps, set-KeysFit, delete-KeysFit,
}

pub Keeps-lock : Keeps lock
unfolding lock
Keeps-lock = record { at = λ w v. delete-KeysFit w.session.id w.keys v }

module _ (prisma : Prisma) (crypto : CryptoService) where
  pub Keeps-unlock : (user_id password : Text) → Keeps (unlock prisma crypto user_id password)
  unfolding unlock
  Keeps-unlock user_id password = record {
    at = λ w v sid e h.
        elim (Option-cases (prisma.users.find_first (λ u. u.id == user_id) w.db.users)) [
          | inl missing ↦ ground (arith, v sid e, missing)
          | inr (u, there) ↦
              let key = crypto.derive_encryption_key password u.master_kdf_salt in
              ground (
                arith,
                there,
                v sid e,
                set-KeysFit w.session.id key u.auto_lock_minutes w.now w.keys
                    (crypto.length-derive password u.master_kdf_salt) v sid e,
              )
        ];
  }

  pub Keeps-setup : (password : Text) → Keeps (setup_master_password prisma crypto password)
  unfolding setup_master_password new_user
  Keeps-setup password = record {
    at = λ w v sid e h.
        let salt = crypto.generate_kdf_salt w.draws in
        let key = crypto.derive_encryption_key password salt in
        ground (
          arith,
          v sid e,
          set-KeysFit w.session.id key default_auto_lock_minutes w.now w.keys
              (crypto.length-derive password salt) v sid e,
        );
  }

  pub Keeps-change :
      (user_id current new : Text)
      → Keeps (change_master_password prisma crypto user_id current new)
  Keeps-change user_id current new = record {
    at = λ w v sid e h.
        elim (Result-cases (change_master_password prisma crypto user_id current new w)) [
          | inr (x, w', failed) ↦
              let (db, keys, session) =
                change_master_password_atomic prisma crypto user_id current new w failed in
              ground (arith, failed, keys, v sid e)
          | inl (n, w', went) ↦
              let (u, t, found, verified, short, ran, now) =
                change-Succeeded prisma crypto user_id current new w went in
              let salt = crypto.generate_kdf_salt w.draws in
              let key = crypto.derive_encryption_key new salt in
              let (keys, session, time) =
                body_keeps prisma crypto user_id current new u w (drawn w) in
              let kept : KeysFit t.keys = λ sid e h. ground (arith, keys, ran, v sid e) in
              let fit : KeysFit w'.keys = rw now (
                set-KeysFit t.session.id key u.auto_lock_minutes t.now t.keys
                  (crypto.length-derive new salt) kept) in
              fit sid e (ground (arith, went))
        ];
  }

pub Keeps-minutes :
    (prisma : Prisma) (user_id : Text) (minutes : ℕ)
    → Keeps (update_auto_lock_minutes prisma user_id minutes)
unfolding update_auto_lock_minutes
Keeps-minutes prisma user_id minutes = record {
  at = λ w v sid e h. ground (arith, v sid e, minutes-KeysFit w.session.id minutes w.keys v sid e);
}
