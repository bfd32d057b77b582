-- ===== src/Mail/Gmail.antt =====
-- mail/providers/gmail.provider.ts: the provider for Gmail, over the packages google-auth-library
-- and googleapis.
use my_account_controller.Common.{
  ℕ, Bool, true, false, Option, none, some, List, [], ◌∷◌, Text, ◌==◌, given, or_else, find, any,
  codes, ok, err, Error, cipher, remote, p2025, or_throw, pure, gets, ◌>>=◌, ◌>>◌, if◌then◌else◌,
}
use my_account_controller.Database.{Prisma, email_account_clash, with_email_accounts}
use my_account_controller.Crypto.{CryptoService}
use my_account_controller.Crypto.Encoding.{Bytes}
use my_account_controller.Mail.Provider.{MailProvider, RawMailMessage}
use my_account_controller.Mail.Matcher.{Unicode}
use my_account_controller.World.{Action, MailAction, MailCall, draw, store}

-- `client.credentials`
pub record Credentials : Type 0 where
  pub access_token : Option Text
  pub refresh_token : Text
  pub expiry_date : Option ℕ

pub record Header : Type 0 where
  pub name : Option Text
  pub value : Option Text

-- `gmail_v1.Schema$Message`, as far as it is read; missing lists are empty.
pub record Message : Type 0 where
  pub id : Text
  pub snippet : Option Text
  pub internal_date : Option Text
  pub headers : List Header
  pub part_filenames : List (Option Text)

-- The remote side. `none` is an exception. `get_access_token` renews what is about to expire, and
-- returns the client's credentials after it; `list_messages` and `get_message` are the two calls
-- of a scan, with the parameters of the source; `moves` tells whether a call that moves a message
-- goes through. `parse_date` and `parse_number` are the dates
-- `new Date(text)` and `new Date(Number(text))`, `none` for an `Invalid Date`.
pub record GmailApi : Type 0 where
  pub get_access_token : Credentials → Option Credentials
  pub list_messages : Credentials → Option (List Text)
  pub get_message : Credentials → Text → Option Message
  pub moves : Credentials → Text → MailAction → Bool
  pub parse_date : Text → Option ℕ
  pub parse_number : Text → Option ℕ

module _ (unicode : Unicode) where
  -- `headers.find((h) => h.name?.toLowerCase() === name.toLowerCase())?.value ?? ''`
  unfoldable pub is_header : Text → Header → Bool
  is_header name h = elim h.name [
    | none ↦ false
    | some n ↦ unicode.to_lower n == unicode.to_lower name
  ]

  unfoldable pub header : Text → List Header → Text
  unfolding is_header
  header name headers = elim (find (is_header name) headers) [
    | none ↦ []
    | some h ↦ or_else h.value []
  ]

  unfoldable pub to_raw_mail_message : GmailApi → Message → RawMailMessage
  to_raw_mail_message api message =
      let date = header (codes "Date") message.headers in
      record {
        external_message_id = message.id;
        sender = header (codes "From") message.headers;
        subject = header (codes "Subject") message.headers;
        body_preview = or_else message.snippet [];
        received_at = elim (given (some date)) [
          | none ↦ elim message.internal_date [ none ↦ some 0 | some t ↦ api.parse_number t ]
          | some d ↦ api.parse_date d
        ];
        has_attachment =
            any (λ name. elim (given name) [ none ↦ false | some n ↦ true ]) message.part_filenames;
      }

-- A new access token that differs from the one that was stored.
unfoldable pub renewed : Credentials → Credentials → Option Text
renewed before after = elim (given after.access_token) [
  | none ↦ none
  | some token ↦ elim before.access_token [
    | none ↦ some token
    | some old ↦ if token == old then none else some token
  ]
]

-- `expiry_date ? new Date(expiry_date) : null`
abbrev pub date_or_null : Option ℕ → Option ℕ
date_or_null (some (ℕ.suc n)) = some (ℕ.suc n)
date_or_null other = none

module _ (prisma : Prisma) (crypto : CryptoService) (token_key : Bytes) (api : GmailApi) where
  -- The renewed token goes back to the database, under the server's key.
  unfoldable pub save_renewed : Text → Option Text → Option ℕ → Action (Unit {0})
  save_renewed email_account_id token expiry = elim token [
    | none ↦ pure tt
    | some t ↦ do
      d ← draw
      payload ← or_throw (crypto.encrypt d t token_key) cipher
      store
          (λ w.
            prisma.email_accounts.update email_account_clash (λ a. a.id == email_account_id)
              (λ a. record a {
                encrypted_access_token = payload;
                token_expires_at = date_or_null expiry;
              })
              w.db.email_accounts)
          with_email_accounts
  ]

  unfoldable pub get_authorized_client : Text → Action Credentials
  get_authorized_client email_account_id = do
    found ←
        gets (λ w.
          prisma.email_accounts.find_first (λ a. a.id == email_account_id) w.db.email_accounts)
    account ← or_throw found (Error.prisma p2025)
    access ← or_throw (crypto.decrypt account.encrypted_access_token token_key) cipher
    refresh ← or_throw (crypto.decrypt account.encrypted_refresh_token token_key) cipher
    let before : Credentials = record {
      access_token = some access;
      refresh_token = refresh;
      expiry_date = account.token_expires_at;
    }
    after ← or_throw (api.get_access_token before) remote
    save_renewed email_account_id (renewed before after) after.expiry_date
    pure after

  -- `Promise.all` over the ids: the messages in the order of the ids, or an exception.
  unfoldable pub get_all : Unicode → Credentials → List Text → Option (List RawMailMessage)
  get_all unicode auth [] = some []
  get_all unicode auth (id ∷ ids) =
      let later = get_all unicode auth ids in
      elim (api.get_message auth id) [
        | none ↦ none
        | some m ↦ elim later [
          | none ↦ none
          | some messages ↦ some (to_raw_mail_message unicode api m ∷ messages)
        ]
      ]

  unfoldable pub list_candidate_messages : Unicode → Text → Action (List RawMailMessage)
  list_candidate_messages unicode email_account_id = do
    auth ← get_authorized_client email_account_id
    ids ← or_throw (api.list_messages auth) remote
    or_throw (get_all unicode auth ids) remote

  -- The trash for `delete`, the label SPAM for `spam`.
  unfoldable pub apply_action : Text → Text → MailAction → Action (Unit {0})
  apply_action email_account_id external_message_id action = do
    auth ← get_authorized_client email_account_id
    let call : MailCall = record {
      email_account_id = email_account_id;
      external_message_id = external_message_id;
      action = action;
    }
    λ w.
        if api.moves auth external_message_id action
        then (ok tt, record w { mailbox = call ∷ w.mailbox })
        else (err remote, w)

  unfoldable pub gmail_provider : Unicode → MailProvider
  gmail_provider unicode = record {
    list_candidate_messages = list_candidate_messages unicode;
    apply_action = apply_action;
  }
