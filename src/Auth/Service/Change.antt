-- ===== src/Auth/Service/Change.antt =====
-- `changeMasterPassword` as a whole (auth/auth.service.ts): the transaction and what is around it.
use my_account_controller.Common.{
  Result-cases, ℕ, ◌+◌, ◌≡◌, refl, true, false, Option, some, Text, ◌==◌, Result, Error, ok, err,
  arith, inl, inr, Option-cases, ◌⊎◌,
}
use my_account_controller.Database.{User, Prisma}
use my_account_controller.Crypto.{CryptoService}
use my_account_controller.World.{World, db_of, put_db}
use my_account_controller.Auth.KeyStore
use my_account_controller.Auth.Service.{is_too_short, rekey, change_master_password}
use my_account_controller.Auth.Service.Rekey.{reencrypt_all_keeps}

-- After the draws of the salt and the hash.
abbrev pub drawn : World → World
drawn w = record w { draws = w.draws + 1 + 1 }

module _ (prisma : Prisma) (crypto : CryptoService) (user_id current new : Text) where
  -- The function of the transaction, with the keys of a change from the salt of `u`.
  abbrev pub body : User → World → World → Result ℕ × World
  body u w =
      let salt = crypto.generate_kdf_salt w.draws in
      rekey prisma crypto user_id (crypto.derive_encryption_key current u.master_kdf_salt)
        (crypto.derive_encryption_key new salt) (crypto.hash_master_password (w.draws + 1) new) salt
        (prisma.accounts.find_many (λ a. a.user_id == user_id) w.db.accounts)

  abbrev pub found : World → Option User
  found w = prisma.users.find_first (λ u. u.id == user_id) w.db.users

  abbrev in_transaction : User → World → Result ℕ × World
  in_transaction u w = prisma.transaction World ℕ db_of put_db (body u w) (drawn w)

  pub body_keeps :
      (u : User) (w v : World)
      → ((body u w v).1.keys ≡ v.keys)
        × ((body u w v).1.session ≡ v.session)
        × ((body u w v).1.now ≡ v.now)
  unfolding rekey
  body_keeps u w v =
      let salt = crypto.generate_kdf_salt w.draws in
      ground (
        arith,
        reencrypt_all_keeps prisma crypto (crypto.derive_encryption_key current u.master_kdf_salt)
            (crypto.derive_encryption_key new salt)
            (prisma.accounts.find_many (λ a. a.user_id == user_id) w.db.accounts) v,
      )

  -- What the change comes to, once the three checks have passed.
  transaction_cases :
      (u : User) (w : World)
      → ((n : ℕ) × (v : World) × (body u w (drawn w) ≡ (ok n, v))
          × (in_transaction u w ≡ (ok n, v)))
        ⊎ ((e : Error) × (v : World) × (in_transaction u w ≡ (err e, v))
            × (v.db ≡ w.db)
            × (v.keys ≡ w.keys)
            × (v.session ≡ w.session))
  transaction_cases u w = elim (Result-cases (body u w (drawn w))) [
    | inl (n, v, e) ↦
        inl (n, v, e, prisma.transaction_commits World ℕ db_of put_db (body u w) (drawn w) e)
    | inr (x, v, e) ↦
        let kept = body_keeps u w (drawn w) in
        inr (
          x,
          put_db w.db v,
          prisma.transaction_rolls_back World ℕ db_of put_db (body u w) (drawn w) e,
          refl,
          ground (arith, kept),
          ground (arith, kept),
        )
  ]

  -- A change that fails, for whatever reason, leaves the database, the keys and the session alone.
  pub change_master_password_atomic :
      (w : World) {e : Error} {w' : World}
      → change_master_password prisma crypto user_id current new w ≡ (err e, w')
      → (w'.db ≡ w.db) × (w'.keys ≡ w.keys) × (w'.session ≡ w.session)
  unfolding change_master_password
  change_master_password_atomic w {e} {w'} h = elim (Option-cases (found w)) [
    | inl missing ↦ ground arith
    | inr (u, there) ↦ elim (transaction_cases u w) [
      | inl (n, v, run, done) ↦ ground (arith, done)
      | inr (x, v, done, a, b, c) ↦ ground (arith, done)
    ]
  ]

  -- What a change that succeeds went through.
  abbrev pub Succeeded : World → ℕ → World → Type 0
  Succeeded w n w' =
      (u : User) × (v : World) × (found w ≡ some u)
      × (crypto.verify_master_password current u.master_password_hash ≡ true)
      × (is_too_short new ≡ false)
      × (body u w (drawn w) ≡ (ok n, v))
      × (w' ≡ record v {
        keys =
            KeyStore.set v.session.id
              (crypto.derive_encryption_key new (crypto.generate_kdf_salt w.draws))
              u.auto_lock_minutes v.now v.keys;
        session = record v.session { unlocked = true };
      })

  pub change-Succeeded :
      (w : World) {n : ℕ} {w' : World}
      → change_master_password prisma crypto user_id current new w ≡ (ok n, w')
      → Succeeded w n w'
  unfolding change_master_password
  change-Succeeded w {n} {w'} h = elim (Option-cases (found w)) [
    | inl missing ↦ absurd (ground arith)
    | inr (u, there) ↦ elim (transaction_cases u w) [
      | inl (m, v, run, done) ↦ (
        u,
        v,
        there,
        ground (arith, done),
        ground (arith, done),
        ground (arith, done, run),
        ground (arith, done),
      )
      | inr (x, v, done, a, b, c) ↦ absurd (ground (arith, done))
    ]
  ]
