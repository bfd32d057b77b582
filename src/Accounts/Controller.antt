-- ===== src/Accounts/Controller.antt =====
-- accounts/accounts.controller.ts: every route wants an unlocked session, whose user and key the
-- handler passes on.
pub mod Locked
use my_account_controller.Common.{ℕ, Bool, Option, List, Text, pure, ◌>>=◌}
use my_account_controller.Database.{Account, Prisma}
use my_account_controller.Crypto.{CryptoService}
use my_account_controller.Auth.Guards.{unlocked_guard}
use my_account_controller.Accounts.Generator.{Random, Options}
use my_account_controller.Accounts.Generator
use my_account_controller.Accounts.Service.{AccountData, AccountChange, AccountSummary}
use my_account_controller.Accounts.Service
use my_account_controller.Accounts.Backup.{Json, BackupFile}
use my_account_controller.Accounts.Backup
use my_account_controller.World.{Action}

module _ (prisma : Prisma) (crypto : CryptoService) where
  unfoldable pub find_all :
      (Text → Text → Bool) → Option Text → Option Text → Action (List AccountSummary)
  find_all contains category q = do
    (user_id, key) ← unlocked_guard
    Service.find_all prisma crypto contains user_id category q

  unfoldable pub find_one : Text → Action (Account × Text)
  find_one id = do (user_id, key) ← unlocked_guard; Service.find_one prisma crypto user_id id key

  unfoldable pub create : AccountData → Action Account
  create body = do (user_id, key) ← unlocked_guard; Service.create prisma crypto user_id key body

  -- The draws of the generator are numbered by an argument: its count is not known beforehand.
  unfoldable pub generate_password : Random → ℕ → Options → Action Text
  generate_password random first_draw options = do
    (user_id, key) ← unlocked_guard
    pure (Generator.generate_password random first_draw options)

  unfoldable pub export_accounts : Json → Text → Action BackupFile
  export_accounts json_format export_password = do
    (user_id, key) ← unlocked_guard
    Backup.export_accounts prisma crypto json_format user_id key export_password

  unfoldable pub import_accounts : Json → Text → BackupFile → Action (ℕ × ℕ)
  import_accounts json_format export_password file = do
    (user_id, key) ← unlocked_guard
    Backup.import_accounts prisma crypto json_format user_id key export_password file

  unfoldable pub update : Text → AccountChange → Action (Unit {0})
  update id body = do
    (user_id, key) ← unlocked_guard
    Service.update prisma crypto user_id id key body

  unfoldable pub remove : Text → Action (Unit {0})
  remove id = do (user_id, key) ← unlocked_guard; Service.remove prisma crypto user_id id
