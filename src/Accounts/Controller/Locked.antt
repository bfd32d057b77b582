-- ===== src/Accounts/Controller/Locked.antt =====
-- The routes of accounts/accounts.controller.ts in a session that the guard refuses.
use my_account_controller.Common.{ℕ, ◌≡◌, arith, Option, Text, Bool, err, Error}
use my_account_controller.Database.{Prisma}
use my_account_controller.Crypto.{CryptoService}
use my_account_controller.Auth.Guards.{unlocked_guard}
use my_account_controller.Accounts.Generator.{Random, Options}
use my_account_controller.Accounts.Service.{AccountData, AccountChange}
use my_account_controller.Accounts.Backup.{Json, BackupFile}
use my_account_controller.Accounts.Controller.{
  find_all, find_one, create, generate_password, export_accounts, import_accounts, update, remove,
}
use my_account_controller.World.{World}

module _ (prisma : Prisma) (crypto : CryptoService) (w : World) {e : Error} {w' : World}
    (locked : unlocked_guard w ≡ (err e, w')) where
  -- If the guard refuses the session, all eight routes of the accounts answer with its error, and
  -- leave the server as the guard left it, whatever they are asked.
  pub locked_account_routes :
      (contains : Text → Text → Bool) (id password : Text) (category q : Option Text)
      (d : AccountData) (change : AccountChange) (random : Random) (draw : ℕ) (options : Options)
      (json_format : Json) (file : BackupFile)
      → (find_all prisma crypto contains category q w ≡ (err e, w'))
        × (find_one prisma crypto id w ≡ (err e, w'))
        × (create prisma crypto d w ≡ (err e, w'))
        × (generate_password prisma crypto random draw options w ≡ (err e, w'))
        × (export_accounts prisma crypto json_format password w ≡ (err e, w'))
        × (import_accounts prisma crypto json_format password file w ≡ (err e, w'))
        × (update prisma crypto id change w ≡ (err e, w'))
        × (remove prisma crypto id w ≡ (err e, w'))
  unfolding find_all find_one create generate_password export_accounts import_accounts update remove
  locked_account_routes contains id password category q d change random draw options json_format
        file =
      (
        ground arith,
        ground arith,
        ground arith,
        ground arith,
        ground arith,
        ground arith,
        ground arith,
        ground arith,
      )
