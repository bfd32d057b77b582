-- ===== src/Auth/Service/NewKey.antt =====
-- The database and the session after `changeMasterPassword` (auth/auth.service.ts).
use my_account_controller.Common.{
  Result-cases, ℕ, ◌+◌, ◌≡◌, ◌≢◌, refl, sym, ◌∙◌, ap, subst, true, some, List, Text, ◌==◌, Result,
  ok, arith, Memᴰ, inl, inr, eq_of_==, ==_yes,
}
use my_account_controller.Database.{
  Account, User, TrustedDevice, Prisma, written, Written-cases, user_clash,
}
use my_account_controller.Crypto.{CryptoService}
use my_account_controller.Crypto.Encoding.{Bytes}
use my_account_controller.World.{World}
use my_account_controller.Auth.KeyStore
use my_account_controller.Auth.KeyStore.Laws.{lookup-insert}
use my_account_controller.Auth.Service.{rekey, reencrypt_all, change_master_password}
use my_account_controller.Auth.Service.Change.{body, drawn, change-Succeeded}
use my_account_controller.Auth.Service.Rekey.{
  SamePassword, SameButPassword, Rekeyed, reencrypt_all-Rekeyed, reencrypt_all-OthersKept,
  reencrypt_all-SameButPassword, reencrypt_all_frame,
}

-- The primary key of the table.
abbrev pub IdsDistinct : List Account → Type 0
IdsDistinct rows = (a b : Account) → Memᴰ a rows → Memᴰ b rows → a.id ≡ b.id → a ≡ b

module _ (prisma : Prisma) (crypto : CryptoService) (user_id current new : Text) where
  abbrev old_key : User → Bytes
  old_key u = crypto.derive_encryption_key current u.master_kdf_salt

  abbrev new_salt : World → Text
  new_salt w = crypto.generate_kdf_salt w.draws

  abbrev new_key : World → Bytes
  new_key w = crypto.derive_encryption_key new (new_salt w)

  abbrev new_hash : World → Text
  new_hash w = crypto.hash_master_password (w.draws + 1) new

  abbrev accounts_of : World → List Account
  accounts_of w = prisma.accounts.find_many (λ a. a.user_id == user_id) w.db.accounts

  abbrev reencrypted : User → World → Result (Unit {0}) × World
  reencrypted u w = reencrypt_all prisma crypto (old_key u) (new_key w) (accounts_of w) (drawn w)

  -- What the transaction went through.
  body_succeeded :
      (u : User) (w : World) {n : ℕ} {v : World}
      → body prisma crypto user_id current new u w (drawn w) ≡ (ok n, v)
      → (w1 : World) × (users : List User) × (reencrypted u w ≡ (ok tt, w1))
        × (prisma.users.update user_clash
              (λ x. x.id == user_id)
              (λ x. record x { master_password_hash = new_hash w; master_kdf_salt = new_salt w })
              w1.db.users
            ≡ written users)
        × (v ≡ record w1 {
          db = record w1.db {
            users = users;
            devices = prisma.devices.delete_many (λ d. d.user_id == user_id) w1.db.devices;
          };
        })
        × (n ≡ prisma.devices.count (λ d. d.user_id == user_id) w1.db.devices)
  unfolding rekey
  body_succeeded u w {n} {v} h = elim (Result-cases (reencrypted u w)) [
    | inl (x, w1, e) ↦
        elim (Written-cases (
          prisma.users.update user_clash (λ x. x.id == user_id)
            (λ x. record x { master_password_hash = new_hash w; master_kdf_salt = new_salt w })
            w1.db.users)) [
              | inl (users, s) ↦
                  (w1, users, ground (arith, e), s, ground (arith, e, s), ground (arith, e, s))
              | inr (c, s) ↦ absurd (ground (arith, e, s))
            ]
    | inr (x, w1, e) ↦ absurd (ground (arith, e))
  ]

  -- A successful change, taken apart: the user's row, and the server after the loop.
  abbrev Facts : World → ℕ → World → Type 0
  Facts w n w' =
      (u : User) × (w1 : World) × Memᴰ u w.db.users
      × (u.id ≡ user_id)
      × (crypto.verify_master_password current u.master_password_hash ≡ true)
      × (reencrypted u w ≡ (ok tt, w1))
      × (prisma.users.update user_clash (λ x. x.id == user_id)
            (λ x. record x { master_password_hash = new_hash w; master_kdf_salt = new_salt w })
            w1.db.users
          ≡ written w'.db.users)
      × (w'.db.accounts ≡ w1.db.accounts)
      × (w'.db.devices ≡ prisma.devices.delete_many (λ d. d.user_id == user_id) w1.db.devices)
      × (n ≡ prisma.devices.count (λ d. d.user_id == user_id) w1.db.devices)
      × (KeyStore.get w'.session.id w'.keys ≡ some (new_key w))
      × (w'.session.unlocked ≡ true)

  facts :
      (w : World) {n : ℕ} {w' : World}
      → change_master_password prisma crypto user_id current new w ≡ (ok n, w')
      → Facts w n w'
  unfolding KeyStore.get KeyStore.set
  facts w {n} {w'} done =
      let (u, v, there, verified, long, run, result) =
        change-Succeeded prisma crypto user_id current new w done in
      let (w1, users, loop, stored, after, count) = body_succeeded u w run in
      let (member, same_id) =
        prisma.users.find_first_some (λ x. x.id == user_id) w.db.users there in
      (
        u,
        w1,
        member,
        eq_of_== same_id,
        verified,
        loop,
        ground (arith, result, after, stored),
        ground (arith, result, after),
        ground (arith, result, after),
        count,
        ground (
          arith,
          result,
          after,
          lookup-insert v.session.id v.session.id
              (record {
                key = new_key w;
                auto_lock_minutes = u.auto_lock_minutes;
                last_activity_at = v.now;
              })
              v.keys,
        ),
        ground (arith, result),
      )

  -- An account that the list of the user's accounts lacks by its id is another user's.
  other_absent :
      (w : World) (q : Account)
      → IdsDistinct w.db.accounts
      → Memᴰ q w.db.accounts
      → q.user_id ≢ user_id
      → (a : Account) → Memᴰ a (accounts_of w)
      → a.id ≢ q.id
  other_absent w q distinct m other a n e =
      let (na, owner) =
        prisma.accounts.find_many_sound (λ x. x.user_id == user_id) w.db.accounts n in
      other (ap (λ (x : Account). x.user_id) (sym (distinct a q na m e)) ∙ eq_of_== owner)

  -- A row of the user after the loop has the password of the row that it was.
  Rekeyed-row :
      (u : User) (w : World) (q r : Account)
      → IdsDistinct w.db.accounts
      → Memᴰ q w.db.accounts
      → q.user_id ≡ user_id
      → Rekeyed prisma crypto (old_key u) (new_key w) (accounts_of w) q r
      → SameButPassword prisma crypto (old_key u) (new_key w) q r
        × SamePassword prisma crypto
            (old_key u)
            (new_key w)
            q.encrypted_password
            r.encrypted_password
  Rekeyed-row u w q r distinct m owner (inl (e, absent)) =
      let listed =
        prisma.accounts.find_many_complete (λ x. x.user_id == user_id) w.db.accounts m
          (==_yes owner) in
      absurd (absent q listed refl)
  Rekeyed-row u w q r distinct m owner (inr (e, (a, n, id, (p, before, after)))) =
      let na = (prisma.accounts.find_many_sound (λ x. x.user_id == user_id) w.db.accounts n).0 in
      let same = distinct a q na m id in (e, (p, ground (arith, same), after))

  -- After a change that succeeds, every account of the user is there as before but for its
  -- password and time, and what decrypted under the key of the current password and the salt of
  -- the user's row decrypts to the same password under the new key, which the session has.
  pub change_master_password_rekeys :
      (w : World) {n : ℕ} {w' : World}
      → IdsDistinct w.db.accounts
      → change_master_password prisma crypto user_id current new w ≡ (ok n, w')
      → (u : User) × Memᴰ u w.db.users
        × (u.id ≡ user_id)
        × (crypto.verify_master_password current u.master_password_hash ≡ true)
        × (KeyStore.get w'.session.id w'.keys ≡ some (new_key w))
        × ((q : Account)
            → Memᴰ q w.db.accounts
            → q.user_id ≡ user_id
            → (r : Account) × Memᴰ r w'.db.accounts
              × SameButPassword prisma crypto (old_key u) (new_key w) q r
              × SamePassword prisma crypto
                  (old_key u)
                  (new_key w)
                  q.encrypted_password
                  r.encrypted_password)
  change_master_password_rekeys w {n} {w'} distinct done =
      let (u, w1, member, same_id, verified, loop, stored, rows, gone, count, key, open_now) =
        facts w done in
      let fits = crypto.length-derive new (new_salt w) in
      (
        u,
        member,
        same_id,
        verified,
        key,
        λ q m owner.
            let (r, mr, e) =
              reencrypt_all-SameButPassword prisma crypto (old_key u) (new_key w) (accounts_of w)
                (drawn w) fits loop q m in
            let (q1, m1, rekeyed) =
              reencrypt_all-Rekeyed prisma crypto (old_key u) (new_key w) (accounts_of w) (drawn w)
                fits loop r mr in
            let same : q1 ≡ q = distinct q1 q m1 m (ground (arith, e, rekeyed)) in
            let pair = Rekeyed-row u w q r distinct m owner (
              subst (λ x. Rekeyed prisma crypto (old_key u) (new_key w) (accounts_of w) x r) same
                rekeyed) in
            (r, rw rows mr, pair.0, pair.1),
      )

  -- After a change that succeeds, the accounts of all other users are there unchanged, and no
  -- account of the user is there that was not before.
  pub change_master_password_others :
      (w : World) {n : ℕ} {w' : World}
      → IdsDistinct w.db.accounts
      → change_master_password prisma crypto user_id current new w ≡ (ok n, w')
      → ((q : Account) → Memᴰ q w.db.accounts → q.user_id ≢ user_id → Memᴰ q w'.db.accounts)
        × ((r : Account)
            → Memᴰ r w'.db.accounts
            → (q : Account) × Memᴰ q w.db.accounts × (q.id ≡ r.id) × (q.user_id ≡ r.user_id))
  change_master_password_others w {n} {w'} distinct done =
      let (u, w1, member, same_id, verified, loop, stored, rows, gone, count, key, open_now) =
        facts w done in
      let fits = crypto.length-derive new (new_salt w) in
      (
        λ q m other. rw rows (
            reencrypt_all-OthersKept prisma crypto (old_key u) (new_key w) (accounts_of w) (drawn w)
              fits loop q m (other_absent w q distinct m other)),
        λ r mr.
            let (q, m, rekeyed) =
              reencrypt_all-Rekeyed prisma crypto (old_key u) (new_key w) (accounts_of w) (drawn w)
                fits loop r (rw rows at mr) in
            (q, m, ground (arith, rekeyed), ground (arith, rekeyed)),
      )

  -- After a change that succeeds, the user's row verifies the new password and has the salt of the
  -- session's key, none of the user's trusted devices is left, and the number of those that were
  -- there is returned.
  pub change_master_password_user :
      (w : World) {n : ℕ} {w' : World}
      → change_master_password prisma crypto user_id current new w ≡ (ok n, w')
      → ((u : User)
          → Memᴰ u w'.db.users
          → u.id ≡ user_id
          → (crypto.verify_master_password new u.master_password_hash ≡ true)
            × (KeyStore.get w'.session.id w'.keys
                ≡ some (crypto.derive_encryption_key new u.master_kdf_salt)))
        × ((d : TrustedDevice) → Memᴰ d w'.db.devices → d.user_id ≢ user_id)
        × (n ≡ prisma.devices.count (λ d. d.user_id == user_id) w.db.devices)
  change_master_password_user w {n} {w'} done =
      let (u, w1, member, same_id, verified, loop, stored, rows, gone, count, key, open_now) =
        facts w done in
      let fits = crypto.length-derive new (new_salt w) in
      let frame =
        reencrypt_all_frame prisma crypto (old_key u) (new_key w) (accounts_of w) (drawn w) fits
          loop in
      (
        λ x m id.
            let (q, mq, e) =
              prisma.users.update_only user_clash (λ y. y.id == user_id) _ _ stored m in
            let verify = crypto.verify-hash (w.draws + 1) new in
            (ground (arith, e, id, verify), ground (arith, e, id, key)),
        λ d m owner.
            let kept =
              prisma.devices.delete_many_only (λ y. y.user_id == user_id) w1.db.devices
                (rw gone at m) in
            ground (arith, kept.1, owner),
        ground (arith, count, frame),
      )
