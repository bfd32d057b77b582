-- ===== src/Tests/Server.antt =====
-- A server with one user, an account, a mail account with a rule and a candidate, as the tests use
-- it.
use my_account_controller.Common.{
  ◌+◌, ap, true, false, none, some, [], ◌∷◌, ◌++◌, Text, codes, Result, ok, err,
}
use my_account_controller.Database.{
  Db, Prisma, User, Account, EmailAccount, EmailRule, EmailRuleCondition, EmailCandidate,
  ConditionType, JsonValue, or_any, pending, gmail, delete_candidate,
}
use my_account_controller.Database.ListTable.{list_table}
use my_account_controller.Auth.Session.{Session}
use my_account_controller.Auth.KeyStore.{UnlockEntry}
use my_account_controller.Crypto.Encoding.{Bytes}
use my_account_controller.Tests.Primitives.{fit}
use my_account_controller.Mail.Provider.{RawMailMessage}
use my_account_controller.Mail.Matcher.{Unicode, RuleWithConditions}
use my_account_controller.World.{World}

-- What a transaction leaves behind.
abbrev pub settle : {S A : Type 0} → (S → Db) → (Db → S → S) → S → Result A × S → Result A × S
settle get put s (ok a, s') = (ok a, s')
settle get put s (err e, s') = (err e, put (get s) s')

abbrev pub client : Prisma
client = record {
  users = list_table;
  devices = list_table;
  accounts = list_table;
  email_accounts = list_table;
  rules = list_table;
  conditions = list_table;
  candidates = list_table;
  uuid = λ n. (1_000 + n) ∷ [];
  transaction = λ S A get put body s. settle {S = S} {A = A} get put s (body s);
  transaction_commits = λ S A get put body s h. ap (settle {S = S} {A = A} get put s) h;
  transaction_rolls_back = λ S A get put body s h. ap (settle {S = S} {A = A} get put s) h;
}

abbrev pub alice : Text
alice = 1 ∷ []

abbrev pub bob : Text
bob = 2 ∷ []

abbrev pub password : Text
password = codes "old password"

abbrev pub salt : Text
salt = fit 16 (7 ∷ [])

abbrev pub alice_key : Bytes
alice_key = fit 32 (password ++ salt)

abbrev pub alice_row : User
alice_row = record {
  id = alice;
  google_sub_id = codes "sub";
  google_email = codes "a@b.c";
  master_password_hash = 0 ∷ password;
  master_kdf_salt = salt;
  auto_lock_minutes = 15;
  created_at = 0;
}

abbrev pub bank : Account
bank = record {
  id = 10 ∷ [];
  user_id = alice;
  service_name = codes "Bank";
  url_or_app_name = codes "bank.com";
  category = codes "money";
  login_id = codes "al";
  encrypted_password = fit 12 (3 ∷ []) ++ (fit 16 [] ++ (alice_key ++ codes "pin"));
  custom_fields = none;
  memo = none;
  created_at = 1;
  updated_at = 1;
}

abbrev pub shop : Account
shop = record bank { id = 11 ∷ []; user_id = bob }

abbrev pub mail : EmailAccount
mail = record {
  id = 20 ∷ [];
  user_id = alice;
  provider_type = gmail;
  display_name = codes "a@b.c";
  encrypted_access_token = [];
  encrypted_refresh_token = [];
  token_expires_at = none;
  is_active = true;
  connected_at = 2;
}

abbrev pub rule : EmailRule
rule = record {
  id = 30 ∷ [];
  email_account_id = 20 ∷ [];
  logical_operator = or_any;
  action_type = delete_candidate;
  is_active = true;
  created_at = 3;
}

abbrev pub condition : EmailRuleCondition
condition = record {
  id = 40 ∷ [];
  rule_id = 30 ∷ [];
  condition_type = ConditionType.sender;
  condition_value = record {
    domain = some (JsonValue.text (codes "x.y"));
    contains = none;
    equals = none;
  };
}

abbrev pub candidate : EmailCandidate
candidate = record {
  id = 50 ∷ [];
  rule_id = 30 ∷ [];
  email_account_id = 20 ∷ [];
  external_message_id = codes "m0";
  sender = codes "s";
  subject = codes "t";
  received_at = 4;
  status = pending;
  processed_at = none;
}

abbrev pub message : RawMailMessage
message = record {
  external_message_id = codes "m1";
  sender = codes "news@x.y";
  subject = codes "sale";
  body_preview = [];
  received_at = some 5;
  has_attachment = false;
}

abbrev pub full_rule : RuleWithConditions
full_rule = record { rule = rule; conditions = condition ∷ [] }

-- Letters without case, and no pictographs.
abbrev pub plain_letters : Unicode
plain_letters = record { to_lower = λ t. t; has_pictographic = λ t. false }

abbrev pub db : Db
db = record {
  users = alice_row ∷ [];
  devices = [];
  accounts = bank ∷ shop ∷ [];
  email_accounts = mail ∷ [];
  rules = rule ∷ [];
  conditions = condition ∷ [];
  candidates = candidate ∷ [];
}

abbrev pub session : Session
session = record {
  id = codes "sid";
  user_id = some alice;
  unlocked = true;
  oauth_state = none;
  gmail_oauth_state = none;
  pending_google = none;
  current_webauthn_challenge = none;
}

abbrev pub entry : UnlockEntry
entry = record { key = alice_key; auto_lock_minutes = 15; last_activity_at = 1_000 }

-- Alice's session, open.
abbrev pub world : World
world = record {
  db = db;
  keys = (codes "sid", entry) ∷ [];
  session = session;
  now = 2_000;
  draws = 0;
  mailbox = [];
}

-- A visitor who comes back from Google.
abbrev pub visitor : World
visitor = record world {
  keys = [];
  session = record session { user_id = none; unlocked = false; oauth_state = some (codes "st") };
}
