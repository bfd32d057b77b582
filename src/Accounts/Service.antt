-- ===== src/Accounts/Service.antt =====
-- accounts/accounts.service.ts: the accounts of a user, their passwords encrypted under the key
-- of the unlocked session. `deleteMany` on an id stands for `delete` of a row that was just found.
pub mod Vault
pub mod Isolation
use my_account_controller.Common.{
  ℕ, Bool, true, ◌&&◌, ◌||◌, Option, none, some, List, [], ◌∷◌, map, Text, ◌==◌, given, or_else,
  Error, Result, ok, err, not_found, conflict, cipher, p2002, p2003, is_some, false,
  account_missing, duplicate_account, or_throw, throw, pure, gets, catching, ◌>>=◌, ◌>>◌,
}
use my_account_controller.Database.{
  Account, User, Prisma, Written, written, refused, account_clash, with_accounts,
}
use my_account_controller.Crypto.{CryptoService}
use my_account_controller.Crypto.Encoding.{Bytes}
use my_account_controller.World.{World, Action, draw, change_db, store}

-- The columns that `findAll` selects.
pub record AccountSummary : Type 0 where
  pub id : Text
  pub service_name : Text
  pub url_or_app_name : Text
  pub category : Text
  pub login_id : Text
  pub memo : Option Text
  pub created_at : ℕ
  pub updated_at : ℕ

unfoldable pub summary : Account → AccountSummary
summary a = record {
  id = a.id;
  service_name = a.service_name;
  url_or_app_name = a.url_or_app_name;
  category = a.category;
  login_id = a.login_id;
  memo = a.memo;
  created_at = a.created_at;
  updated_at = a.updated_at;
}

-- The argument of `create`. A backup's entries bring their custom fields along.
pub record AccountData : Type 0 where
  pub service_name : Text
  pub url_or_app_name : Text
  pub category : Text
  pub login_id : Text
  pub password : Text
  pub custom_fields : Option Text
  pub memo : Option Text

-- The argument of `update`, the body of a request as it comes: the fields that its type declares,
-- and the other columns of the row, which `...rest` passes on just so.
pub record AccountChange : Type 0 where
  pub service_name : Option Text
  pub url_or_app_name : Option Text
  pub category : Option Text
  pub login_id : Option Text
  pub password : Option Text
  pub memo : Option Text
  pub id : Option Text
  pub user_id : Option Text
  pub encrypted_password : Option Text
  pub custom_fields : Option Text
  pub created_at : Option ℕ
  pub updated_at : Option ℕ

unfoldable pub owned : Text → Text → Account → Bool
owned user_id id a = a.id == id && a.user_id == user_id

-- P2002 becomes a conflict; any other error is thrown again.
unfoldable pub account_conflict : {A : Type 0} → Error → Action A
account_conflict (Error.prisma p2002) = throw (conflict duplicate_account)
account_conflict e = throw e

-- `{ ...rest, encryptedPassword }` written over a row; a field that is not sent stays. The payload
-- comes after the spread, and a time of change that is sent replaces `@updatedAt`.
unfoldable pub changed : AccountChange → Option Text → ℕ → Account → Account
changed d payload now a = record {
  id = or_else d.id a.id;
  user_id = or_else d.user_id a.user_id;
  service_name = or_else d.service_name a.service_name;
  url_or_app_name = or_else d.url_or_app_name a.url_or_app_name;
  category = or_else d.category a.category;
  login_id = or_else d.login_id a.login_id;
  memo = elim d.memo [ none ↦ a.memo | some m ↦ some m ];
  encrypted_password = or_else payload (or_else d.encrypted_password a.encrypted_password);
  custom_fields = elim d.custom_fields [ none ↦ a.custom_fields | some c ↦ some c ];
  created_at = or_else d.created_at a.created_at;
  updated_at = or_else d.updated_at now;
}

-- The foreign key of the owner: a write that names one that is not there is refused.
unfoldable pub with_owner : Bool → Written Account → Written Account
with_owner false (written rows) = refused p2003
with_owner there result = result

module _ (prisma : Prisma) (crypto : CryptoService) where
  -- `findAll`; `contains` is the database's test with `mode: 'insensitive'`.
  unfoldable pub selects : (Text → Text → Bool) → Text → Option Text → Option Text → Account → Bool
  selects contains user_id category q a =
      a.user_id == user_id
      && ((elim (given category) [ none ↦ true | some c ↦ a.category == c ]) && (elim (given q) [
        | none ↦ true
        | some t ↦ contains a.service_name t || contains a.url_or_app_name t
      ]))

  unfoldable pub find_all :
      (Text → Text → Bool) → Text → Option Text → Option Text → Action (List AccountSummary)
  find_all contains user_id category q = gets (λ w. map summary (
      prisma.accounts.find_desc (λ a. a.created_at) (selects contains user_id category q)
        w.db.accounts))

  unfoldable pub find_owned : Text → Text → Action Account
  find_owned user_id id = do
    found ← gets (λ w. prisma.accounts.find_first (owned user_id id) w.db.accounts)
    or_throw found (not_found account_missing)

  -- The row, and its password in the clear.
  unfoldable pub find_one : Text → Text → Bytes → Action (Account × Text)
  unfolding find_owned
  find_one user_id id key = do
    account ← find_owned user_id id
    password ← or_throw (crypto.decrypt account.encrypted_password key) cipher
    pure (account, password)

  unfoldable pub new_account : Text → AccountData → Text → ℕ → ℕ → Account
  new_account user_id d payload id now = record {
    id = prisma.uuid id;
    user_id = user_id;
    service_name = d.service_name;
    url_or_app_name = d.url_or_app_name;
    category = d.category;
    login_id = d.login_id;
    encrypted_password = payload;
    custom_fields = d.custom_fields;
    memo = d.memo;
    created_at = now;
    updated_at = now;
  }

  unfoldable pub create : Text → Bytes → AccountData → Action Account
  unfolding account_conflict
  create user_id key d =
      catching
        (do
          iv_draw ← draw
          payload ← or_throw (crypto.encrypt iv_draw d.password key) cipher
          id_draw ← draw
          now ← gets (λ w. w.now)
          let account = new_account user_id d payload id_draw now
          store (λ w. prisma.accounts.create account_clash account w.db.accounts) with_accounts
          pure account)
        account_conflict

  -- The ciphertext to store: none if no password was sent.
  unfoldable pub new_payload : Option Text → Bytes → Action (Option Text)
  new_payload password key = elim (given password) [
    | none ↦ pure none
    | some p ↦ do
      iv_draw ← draw
      payload ← or_throw (crypto.encrypt iv_draw p key) cipher
      pure (some payload)
  ]

  unfoldable pub owner_exists : Option Text → List User → Bool
  owner_exists none users = true
  owner_exists (some u) users = is_some (prisma.users.find_first (λ x. x.id == u) users)

  unfoldable pub update : Text → Text → Bytes → AccountChange → Action (Unit {0})
  unfolding find_owned new_payload account_conflict
  update user_id id key d = do
    existing ← find_owned user_id id
    catching
        (do
          payload ← new_payload d.password key
          store
              (λ w. with_owner (owner_exists d.user_id w.db.users) (
                prisma.accounts.update account_clash (λ a. a.id == id) (changed d payload w.now)
                  w.db.accounts))
              with_accounts)
        account_conflict

  unfoldable pub remove : Text → Text → Action (Unit {0})
  unfolding find_owned
  remove user_id id = do
    existing ← find_owned user_id id
    change_db (λ db. with_accounts (prisma.accounts.delete_many (λ a. a.id == id) db.accounts) db)
