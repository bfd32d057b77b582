-- ===== src/Auth/Service.antt =====
-- auth/auth.service.ts: the login with Google, the master password, locking and unlocking.
pub mod Rekey
pub mod Change
pub mod NewKey
pub mod Setup
pub mod Elsewhere
use my_account_controller.Common.{
  ℕ, ◌+◌, Bool, true, false, ◌||◌, not, Option, none, some, List, [], ◌∷◌, Text, ◌==◌, length,
  given, is_some, ltb, Result, ok, err, bad_request, unauthorized, conflict, cipher, prisma, p2025,
  oauth_state_mismatch, already_set_up, google_first, short_master_password, unknown_user,
  wrong_master_password, wrong_current_password, bad_auto_lock, or_throw, throw, throw_if, pure,
  gets, from_result, ◌>>=◌, ◌>>◌, if◌then◌else◌,
}
use my_account_controller.Database.{
  User, Account, Prisma, user_clash, account_clash, with_users, with_accounts, with_devices,
}
use my_account_controller.Crypto.{CryptoService}
use my_account_controller.Crypto.Encoding.{Bytes}
use my_account_controller.Auth.Session.{Session, GoogleProfile}
use my_account_controller.Auth.Google.{
  GoogleClient, generate_state, build_auth_url, exchange_code_for_profile,
}
use my_account_controller.Auth.KeyStore
use my_account_controller.World.{
  World, Action, draw, change_session, change_keys, change_db, store, db_of, put_db,
}

abbrev pub min_master_password_length : ℕ
min_master_password_length = 8

-- `!password || password.length < MIN_MASTER_PASSWORD_LENGTH`
unfoldable pub is_too_short : Text → Bool
is_too_short password = ltb (length password) min_master_password_length

-- `@default(15)` of the column
abbrev pub default_auto_lock_minutes : ℕ
default_auto_lock_minutes = 15

pub data CallbackResult : Type 0 where
  logged_in : CallbackResult
  needs_master_password_setup : Text → CallbackResult

-- The parameter `state` is missing, empty or not the state of the session.
unfoldable pub state_differs : Option Text → Option Text → Bool
state_differs state expected = elim (given state) [
  | none ↦ true
  | some s ↦ elim expected [ none ↦ true | some e ↦ not (s == e) ]
]

-- `this.unlockKeyStore.set(session.id, key, minutes)`
abbrev pub keep_key : Bytes → ℕ → Action (Unit {0})
keep_key key minutes w =
    (ok tt, record w { keys = KeyStore.set w.session.id key minutes w.now w.keys })

-- `this.unlockKeyStore.delete(session.id)`
abbrev pub drop_key : Action (Unit {0})
drop_key w = (ok tt, record w { keys = KeyStore.delete w.session.id w.keys })

unfoldable pub lock : Action (Unit {0})
lock = do drop_key; change_session (λ s. record s { unlocked = false })

unfoldable pub logout : Action (Unit {0})
logout = drop_key

-- `checkStillUnlocked`
unfoldable pub check_still_unlocked : Action Bool
check_still_unlocked w =
    if not w.session.unlocked
    then (ok false, w)
    else (let (key, keys) = KeyStore.touch w.session.id w.now w.keys in
        elim key [
          | none ↦
              (ok false, record w { keys = keys; session = record w.session { unlocked = false } })
          | some _ ↦ (ok true, record w { keys = keys })
        ])

module _ (google : GoogleClient) where
  unfoldable pub create_google_auth_url : Action Text
  create_google_auth_url = do
    d ← draw
    let state = generate_state google d
    change_session (λ s. record s { oauth_state = some state })
    pure (build_auth_url google state)

module _ (prisma : Prisma) where
  abbrev pub find_user : Text → Action (Option User)
  find_user user_id = gets (λ w. prisma.users.find_first (λ u. u.id == user_id) w.db.users)

  unfoldable pub handle_google_callback : GoogleClient → Text → Option Text → Action CallbackResult
  handle_google_callback google code state = do
    expected ← gets (λ w. w.session.oauth_state)
    throw_if (state_differs state expected) (bad_request oauth_state_mismatch)
    change_session (λ s. record s { oauth_state = none })
    profile ← from_result (exchange_code_for_profile google code)
    user ← gets (λ w. prisma.users.find_first (λ u. u.google_sub_id == profile.sub) w.db.users)
    elim user [
      | some u ↦ do
        change_session (λ s. record s { user_id = some u.id; unlocked = false })
        pure logged_in
      | none ↦ do
        change_session (λ s. record s { pending_google = some profile })
        pure (needs_master_password_setup profile.email)
    ]

  -- `getSettings`; `findUniqueOrThrow` throws P2025.
  unfoldable pub get_settings : Text → Action ℕ
  get_settings user_id = do
    user ← find_user user_id
    u ← or_throw user (my_account_controller.Common.prisma p2025)
    pure u.auto_lock_minutes

  -- `updateAutoLockMinutes`, of a number that is an integer
  unfoldable pub update_auto_lock_minutes : Text → ℕ → Action (Unit {0})
  update_auto_lock_minutes user_id minutes = do
    throw_if (ltb minutes 1 || ltb 240 minutes) (bad_request bad_auto_lock)
    store
        (λ w.
          prisma.users.update user_clash (λ u. u.id == user_id)
            (λ u. record u { auto_lock_minutes = minutes }) w.db.users)
        with_users
    λ w. (ok tt, record w { keys = KeyStore.update_auto_lock_minutes w.session.id minutes w.keys })

module _ (prisma : Prisma) (crypto : CryptoService) where
  -- The row that `setupMasterPassword` creates: the draws are those of the salt, of the hash and
  -- of the id.
  unfoldable pub new_user : GoogleProfile → Text → Text → ℕ → ℕ → User
  new_user pending hash salt id now = record {
    id = prisma.uuid id;
    google_sub_id = pending.sub;
    google_email = pending.email;
    master_password_hash = hash;
    master_kdf_salt = salt;
    auto_lock_minutes = default_auto_lock_minutes;
    created_at = now;
  }

  unfoldable pub setup_master_password : Text → Action (Text × Text)
  setup_master_password password = do
    session ← gets (λ w. w.session)
    throw_if (is_some (given session.user_id)) (conflict already_set_up)
    pending ← or_throw session.pending_google (unauthorized google_first)
    throw_if (is_too_short password) (bad_request short_master_password)
    salt_draw ← draw
    let salt = crypto.generate_kdf_salt salt_draw
    hash_draw ← draw
    let hash = crypto.hash_master_password hash_draw password
    let key = crypto.derive_encryption_key password salt
    id_draw ← draw
    now ← gets (λ w. w.now)
    let user = new_user pending hash salt id_draw now
    store (λ w. prisma.users.create user_clash user w.db.users) with_users
    change_session
        (λ s. record s { pending_google = none; user_id = some user.id; unlocked = true })
    keep_key key user.auto_lock_minutes
    pure (user.id, user.google_email)

  unfoldable pub unlock : Text → Text → Action (Unit {0})
  unlock user_id password = do
    found ← find_user prisma user_id
    user ← or_throw found (unauthorized unknown_user)
    throw_if (not (crypto.verify_master_password password user.master_password_hash))
        (unauthorized wrong_master_password)
    let key = crypto.derive_encryption_key password user.master_kdf_salt
    keep_key key user.auto_lock_minutes
    change_session (λ s. record s { unlocked = true })

  -- One round of the loop of `changeMasterPassword`: the stored password of one account under the
  -- new key. A cipher that throws ends the transaction.
  unfoldable pub reencrypt : Bytes → Bytes → Text → ℕ → Option Text
  reencrypt old_key new_key payload d = elim (crypto.decrypt payload old_key) [
    | none ↦ none
    | some plain ↦ crypto.encrypt d plain new_key
  ]

  unfoldable pub reencrypt_all : Bytes → Bytes → List Account → Action (Unit {0})
  reencrypt_all old_key new_key [] = pure tt
  reencrypt_all old_key new_key (account ∷ rest) = do
    d ← draw
    payload ← or_throw (reencrypt old_key new_key account.encrypted_password d) cipher
    store
        (λ w.
          prisma.accounts.update account_clash (λ a. a.id == account.id)
            (λ a. record a { encrypted_password = payload; updated_at = w.now }) w.db.accounts)
        with_accounts
    reencrypt_all old_key new_key rest

  -- The function given to `$transaction`: all accounts, the user, the trusted devices.
  unfoldable pub rekey : Text → Bytes → Bytes → Text → Text → List Account → Action ℕ
  rekey user_id old_key new_key new_hash new_salt accounts = do
    reencrypt_all old_key new_key accounts
    store
        (λ w.
          prisma.users.update user_clash (λ u. u.id == user_id)
            (λ u. record u { master_password_hash = new_hash; master_kdf_salt = new_salt })
            w.db.users)
        with_users
    revoked ← gets (λ w. prisma.devices.count (λ d. d.user_id == user_id) w.db.devices)
    change_db
        (λ db. with_devices (prisma.devices.delete_many (λ d. d.user_id == user_id) db.devices) db)
    pure revoked

  unfoldable pub change_master_password : Text → Text → Text → Action ℕ
  change_master_password user_id current new = do
    found ← find_user prisma user_id
    user ← or_throw found (unauthorized unknown_user)
    throw_if (not (crypto.verify_master_password current user.master_password_hash))
        (unauthorized wrong_current_password)
    throw_if (is_too_short new) (bad_request short_master_password)
    let old_key = crypto.derive_encryption_key current user.master_kdf_salt
    salt_draw ← draw
    let new_salt = crypto.generate_kdf_salt salt_draw
    hash_draw ← draw
    let new_hash = crypto.hash_master_password hash_draw new
    let new_key = crypto.derive_encryption_key new new_salt
    accounts ← gets (λ w. prisma.accounts.find_many (λ a. a.user_id == user_id) w.db.accounts)
    revoked ←
        prisma.transaction World ℕ db_of put_db
          (rekey user_id old_key new_key new_hash new_salt accounts)
    keep_key new_key user.auto_lock_minutes
    change_session (λ s. record s { unlocked = true })
    pure revoked
