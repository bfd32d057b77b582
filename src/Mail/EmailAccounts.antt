-- ===== src/Mail/EmailAccounts.antt =====
-- email-accounts/email-accounts.service.ts and gmail-oauth.service.ts: connecting Gmail accounts.
-- Deleting one takes its rules, their conditions and its candidates along (`onDelete: Cascade`).
use my_account_controller.Common.{
  ℕ, Bool, true, ◌&&◌, ◌||◌, Option, none, some, List, map, any, Text, ◌==◌, given, Result, ok, err,
  not_found, plain, cipher, remote, mail_account_missing, no_refresh_token, no_mail_profile,
  or_throw, pure, gets, ◌>>=◌, ◌>>◌,
}
use my_account_controller.Database.{
  Db, Prisma, EmailAccount, ProviderType, gmail, email_account_clash, with_email_accounts,
  with_rules, with_conditions, with_candidates,
}
use my_account_controller.Crypto.{CryptoService}
use my_account_controller.Crypto.Encoding.{Bytes}
use my_account_controller.Mail.Gmail.{date_or_null}
use my_account_controller.World.{Action, draw, change_db, store}

pub record GmailTokens : Type 0 where
  pub email : Text
  pub access_token : Text
  pub refresh_token : Text
  pub expiry_date : Option ℕ

-- The answer of `getToken`.
pub record TokenAnswer : Type 0 where
  pub access_token : Option Text
  pub refresh_token : Option Text
  pub expiry_date : Option ℕ

-- `OAuth2Client` with the scope gmail.modify, and `users.getProfile` under the tokens; `none` is
-- an exception. `hex_state` is `randomBytes(16).toString('hex')` at a draw.
pub record GmailOAuth : Type 0 where
  pub hex_state : ℕ → Text
  pub generate_auth_url : Text → Text
  pub get_token : Text → Option TokenAnswer
  pub get_profile : TokenAnswer → Option (Option Text)

-- The columns that `findAll` selects.
pub record EmailAccountSummary : Type 0 where
  pub id : Text
  pub provider_type : ProviderType
  pub display_name : Text
  pub is_active : Bool
  pub connected_at : ℕ

unfoldable pub email_account_summary : EmailAccount → EmailAccountSummary
email_account_summary a = record {
  id = a.id;
  provider_type = a.provider_type;
  display_name = a.display_name;
  is_active = a.is_active;
  connected_at = a.connected_at;
}

module _ (client : GmailOAuth) where
  unfoldable pub generate_state : ℕ → Text
  generate_state draw = client.hex_state draw

  unfoldable pub build_auth_url : Text → Text
  build_auth_url state = client.generate_auth_url state

  unfoldable pub tokens_of : TokenAnswer → Text → Text → Result GmailTokens
  tokens_of answer access refresh = elim (client.get_profile answer) [
    | none ↦ err remote
    | some address ↦ elim (given address) [
      | none ↦ err (plain no_mail_profile)
      | some email ↦ ok (record {
        email = email;
        access_token = access;
        refresh_token = refresh;
        expiry_date = answer.expiry_date;
      })
    ]
  ]

  unfoldable pub exchange_code_for_tokens : Text → Result GmailTokens
  unfolding tokens_of
  exchange_code_for_tokens code = elim (client.get_token code) [
    | none ↦ err remote
    | some answer ↦ elim (given answer.access_token) [
      | none ↦ err (plain no_refresh_token)
      | some access ↦ elim (given answer.refresh_token) [
        | none ↦ err (plain no_refresh_token)
        | some refresh ↦ tokens_of answer access refresh
      ]
    ]
  ]

module _ (prisma : Prisma) (crypto : CryptoService) (token_key : Bytes) where
  unfoldable pub find_all : Text → Action (List EmailAccountSummary)
  find_all user_id = gets (λ w. map email_account_summary (
      prisma.email_accounts.find_desc (λ a. a.connected_at) (λ a. a.user_id == user_id)
        w.db.email_accounts))

  unfoldable pub new_email_account : Text → GmailTokens → Text → Text → ℕ → ℕ → EmailAccount
  new_email_account user_id tokens access refresh id now = record {
    id = prisma.uuid id;
    user_id = user_id;
    provider_type = gmail;
    display_name = tokens.email;
    encrypted_access_token = access;
    encrypted_refresh_token = refresh;
    token_expires_at = date_or_null tokens.expiry_date;
    is_active = true;
    connected_at = now;
  }

  unfoldable pub create_from_gmail : Text → GmailTokens → Action EmailAccount
  create_from_gmail user_id tokens = do
    access_draw ← draw
    access ← or_throw (crypto.encrypt access_draw tokens.access_token token_key) cipher
    refresh_draw ← draw
    refresh ← or_throw (crypto.encrypt refresh_draw tokens.refresh_token token_key) cipher
    id_draw ← draw
    now ← gets (λ w. w.now)
    let account = new_email_account user_id tokens access refresh id_draw now
    store (λ w. prisma.email_accounts.create email_account_clash account w.db.email_accounts)
        with_email_accounts
    pure account

  -- The rules of a mail account go with it, and their conditions with them.
  unfoldable pub delete_account : Text → Db → Db
  delete_account id db =
      let gone =
        λ (rule_id : Text). any (λ r. r.id == rule_id && r.email_account_id == id) db.rules in
      with_candidates
        (prisma.candidates.delete_many (λ c. c.email_account_id == id || gone c.rule_id)
          db.candidates)
        (with_conditions (prisma.conditions.delete_many (λ c. gone c.rule_id) db.conditions) (
          with_rules (prisma.rules.delete_many (λ r. r.email_account_id == id) db.rules) (
            with_email_accounts
              (prisma.email_accounts.delete_many (λ a. a.id == id) db.email_accounts) db)))

  unfoldable pub remove : Text → Text → Action (Unit {0})
  unfolding delete_account
  remove user_id id = do
    found ← gets (λ w.
        prisma.email_accounts.find_first (λ a. a.id == id && a.user_id == user_id)
          w.db.email_accounts)
    account ← or_throw found (not_found mail_account_missing)
    change_db (delete_account id)
