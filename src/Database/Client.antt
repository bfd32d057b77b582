-- ===== src/Database/Client.antt =====
-- The client with its tables, and the setters of the tables together.
use my_account_controller.Common.{ℕ, ◌≡◌, List, Text, Result, ok, err, Error}
use my_account_controller.Database.Rows.{
  User, TrustedDevice, Account, EmailAccount, EmailRule, EmailRuleCondition, EmailCandidate, Db,
}
use my_account_controller.Database.Model.{Table}

-- `PrismaClient`: a delegate for each model, the ids that `@default(uuid())` draws, and
-- `$transaction` over a function: what it throws rolls the database back.
pub record Prisma : Type 1 where
  pub users : Table User
  pub devices : Table TrustedDevice
  pub accounts : Table Account
  pub email_accounts : Table EmailAccount
  pub rules : Table EmailRule
  pub conditions : Table EmailRuleCondition
  pub candidates : Table EmailCandidate
  pub uuid : ℕ → Text
  -- The body runs on a state `S` with the database in it, which `get` reads and `put` replaces.
  pub transaction : (S A : Type 0) → (S → Db) → (Db → S → S) → (S → Result A × S) → S → Result A × S
  pub transaction_commits :
      (S A : Type 0) (get : S → Db) (put : Db → S → S) (body : S → Result A × S) (s : S) {a : A}
      {s' : S}
      → body s ≡ (ok a, s')
      → transaction S A get put body s ≡ (ok a, s')
  pub transaction_rolls_back :
      (S A : Type 0) (get : S → Db) (put : Db → S → S) (body : S → Result A × S) (s : S) {e : Error}
      {s' : S}
      → body s ≡ (err e, s')
      → transaction S A get put body s ≡ (err e, put (get s) s')

abbrev pub with_users : List User → Db → Db
with_users rows db = record db { users = rows }

abbrev pub with_devices : List TrustedDevice → Db → Db
with_devices rows db = record db { devices = rows }

abbrev pub with_accounts : List Account → Db → Db
with_accounts rows db = record db { accounts = rows }

abbrev pub with_email_accounts : List EmailAccount → Db → Db
with_email_accounts rows db = record db { email_accounts = rows }

abbrev pub with_rules : List EmailRule → Db → Db
with_rules rows db = record db { rules = rows }

abbrev pub with_conditions : List EmailRuleCondition → Db → Db
with_conditions rows db = record db { conditions = rows }

abbrev pub with_candidates : List EmailCandidate → Db → Db
with_candidates rows db = record db { candidates = rows }
