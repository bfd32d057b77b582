-- ===== src/Auth/Service/Setup.antt =====
-- The first master password, locking and unlocking (auth/auth.service.ts).
use my_account_controller.Common.{
  ◌+◌, ◌≡◌, ◌≢◌, refl, Bool, true, false, Option, none, some, Text, ◌==◌, given, length, ◌≤◌, ok,
  err, Error, arith, Memᴰ, inl, inr, Option-cases, eq_of_==, bad_request, oauth_state_mismatch,
  Result, ◌⊎◌, ==_yes,
}
use my_account_controller.Database.{User, Prisma, Written-cases, user_clash}
use my_account_controller.Crypto.{CryptoService}
use my_account_controller.Auth.Session.{GoogleProfile}
use my_account_controller.Auth.Google.{GoogleClient, exchange_code_for_profile}
use my_account_controller.Auth.KeyStore
use my_account_controller.Auth.KeyStore.Laws.{lookup-insert}
use my_account_controller.Auth.Service.{
  setup_master_password, new_user, unlock, is_too_short, handle_google_callback, state_differs,
  CallbackResult, logged_in, needs_master_password_setup,
}
use my_account_controller.World.{World}

false-true : {b : Bool} → b ≡ false → b ≡ true → ⊥
false-true f t = ground arith

Result_of : {A : Type 0} (r : Result A) → ((a : A) × (r ≡ ok a)) ⊎ ((e : Error) × (r ≡ err e))
Result_of (ok a) = inl (a, refl)
Result_of (err e) = inr (e, refl)

module _ (prisma : Prisma) (crypto : CryptoService) (password : Text) where
  abbrev stored_user : World → GoogleProfile → User
  stored_user w pending =
      new_user prisma crypto pending (crypto.hash_master_password (w.draws + 1) password)
        (crypto.generate_kdf_salt w.draws) (w.draws + 1 + 1) w.now

  -- A setup that succeeds had a Google profile waiting and a password of at least 8 units. It
  -- stores a row for that profile, whose hash verifies the password, beside those that were there;
  -- the session is logged in as that user, unlocked with the key of that row's salt, and the
  -- profile is no longer waiting.
  pub setup_master_password-ok :
      (w : World) {ids : Text × Text} {w' : World}
      → setup_master_password prisma crypto password w ≡ (ok ids, w')
      → (pending : GoogleProfile) × (u : User) × (w.session.pending_google ≡ some pending)
        × (given w.session.user_id ≡ none)
        × (8 ≤ length password)
        × Memᴰ u w'.db.users
        × (u.google_sub_id ≡ pending.sub)
        × (crypto.verify_master_password password u.master_password_hash ≡ true)
        × (w'.session
            ≡ record w.session { pending_google = none; user_id = some u.id; unlocked = true })
        × (KeyStore.get w'.session.id w'.keys
            ≡ some (crypto.derive_encryption_key password u.master_kdf_salt))
        × ((q : User) → Memᴰ q w.db.users → Memᴰ q w'.db.users)
  unfolding setup_master_password new_user is_too_short KeyStore.get KeyStore.set
  setup_master_password-ok w {ids} {w'} h = elim (Option-cases w.session.pending_google) [
    | inl missing ↦ absurd (ground arith)
    | inr (pending, there) ↦
        let u = stored_user w pending in
        elim (Written-cases (prisma.users.create user_clash u w.db.users)) [
          | inl (rows, stored) ↦
              let users : w'.db.users ≡ rows = ground (arith, stored) in
              let entry : KeyStore.UnlockEntry = record {
                key = crypto.derive_encryption_key password u.master_kdf_salt;
                auto_lock_minutes = 15;
                last_activity_at = w.now;
              } in
              (
                pending,
                u,
                there,
                ground (arith, stored),
                ground (arith, stored),
                rw users (prisma.users.create_adds user_clash u w.db.users stored),
                refl,
                crypto.verify-hash (w.draws + 1) password,
                ground (arith, stored),
                ground (arith, stored, lookup-insert w.session.id w.session.id entry w.keys),
                λ q m. rw users (prisma.users.create_keeps user_clash u w.db.users stored m),
              )
          | inr (c, failed) ↦ absurd (ground (arith, failed))
        ]
  ]

  abbrev pub Unlocks : Text → World → World → Type 0
  Unlocks user_id w w' =
      (u : User) × (prisma.users.find_first (λ x. x.id == user_id) w.db.users ≡ some u)
      × (crypto.verify_master_password password u.master_password_hash ≡ true)
      × (KeyStore.get w.session.id w'.keys
          ≡ some (crypto.derive_encryption_key password u.master_kdf_salt))
      × (w'.session ≡ record w.session { unlocked = true })
      × (w'.db ≡ w.db)

  -- An unlock that succeeds was for a user who is found and whose hash verifies the password; the
  -- session then has the key of that password and the user's salt. One that fails changes nothing.
  pub unlock_lem :
      (user_id : Text) (w : World)
      → ((w' : World)
          → unlock prisma crypto user_id password w ≡ (ok tt, w')
          → Unlocks user_id w w')
        × ((e : Error) (w' : World)
            → unlock prisma crypto user_id password w ≡ (err e, w')
            → w' ≡ w)
  unfolding unlock KeyStore.get KeyStore.set
  unlock_lem user_id w = (
    λ w' h. elim (Option-cases (prisma.users.find_first (λ x. x.id == user_id) w.db.users)) [
      | inl missing ↦ absurd (ground arith)
      | inr (u, there) ↦
          let entry : KeyStore.UnlockEntry = record {
            key = crypto.derive_encryption_key password u.master_kdf_salt;
            auto_lock_minutes = u.auto_lock_minutes;
            last_activity_at = w.now;
          } in
          (
            u,
            there,
            ground arith,
            ground (arith, lookup-insert w.session.id w.session.id entry w.keys),
            ground arith,
            ground arith,
          )
    ],
    λ e w' h. ground arith,
  )

module _ (prisma : Prisma) (google : GoogleClient) (code : Text) (state : Option Text) where
  -- A callback whose state is not the session's fails and changes nothing.
  pub handle_google_callback_mismatch :
      (w : World)
      → state_differs state w.session.oauth_state ≡ true
      → handle_google_callback prisma google code state w
        ≡ (err (bad_request oauth_state_mismatch), w)
  unfolding handle_google_callback
  handle_google_callback_mismatch w h = ground arith

  -- A callback that succeeds had the state that the session was given, which it uses up. If the
  -- profile's user is there, the session is logged in as that user and locked; if not, the profile
  -- waits in the session, which is logged in as before.
  pub handle_google_callback-ok :
      (w : World) {result : CallbackResult} {w' : World}
      → handle_google_callback prisma google code state w ≡ (ok result, w')
      → (profile : GoogleProfile) × (exchange_code_for_profile google code ≡ ok profile)
        × (given state ≡ w.session.oauth_state)
        × (w'.session.oauth_state ≡ none)
        × (w'.db ≡ w.db)
        × (w'.keys ≡ w.keys)
        × (((result ≡ logged_in)
              × ((u : User) × Memᴰ u w.db.users
                  × (u.google_sub_id ≡ profile.sub)
                  × (w'.session.user_id ≡ some u.id)
                  × (w'.session.unlocked ≡ false)))
            ⊎ ((result ≡ needs_master_password_setup profile.email)
                × ((u : User) → Memᴰ u w.db.users → u.google_sub_id ≢ profile.sub)
                × (w'.session.pending_google ≡ some profile)
                × (w'.session.user_id ≡ w.session.user_id)))
  unfolding handle_google_callback state_differs
  handle_google_callback-ok w {result} {w'} h =
      elim (Result_of (exchange_code_for_profile google code)) [
        | inl (profile, e) ↦
            let find = prisma.users.find_first (λ u. u.google_sub_id == profile.sub) w.db.users in
            elim (Option-cases find) [
              | inl missing ↦ (
                profile,
                e,
                ground arith,
                ground arith,
                ground arith,
                ground arith,
                inr (
                  ground arith,
                  (λ u m same.
                      false-true (prisma.users.find_first_none _ _ missing m) (==_yes same)),
                  ground arith,
                  ground arith,
                ),
              )
              | inr (u, there) ↦
                  let (m, same) = prisma.users.find_first_some _ _ there in
                  (
                    profile,
                    e,
                    ground arith,
                    ground arith,
                    ground arith,
                    ground arith,
                    inl (ground arith, (u, m, eq_of_== same, ground arith, ground arith)),
                  )
            ]
        | inr (x, e) ↦ absurd (ground arith)
      ]
