-- ===== src/Server/Routes/Accounts.antt =====
-- The routes under /accounts (apps/api/src/accounts/accounts.controller.ts).
use my_account_controller.Common.{ℕ, refl, Bool, Option, Text, pure}
use my_account_controller.Crypto.{CryptoService}
use my_account_controller.Database.{Prisma}
use my_account_controller.Accounts.Generator.{Random, Options}
use my_account_controller.Accounts.Generator
use my_account_controller.Accounts.Service.{AccountData, AccountChange}
use my_account_controller.Accounts.Service
use my_account_controller.Accounts.Backup.{Json, BackupFile}
use my_account_controller.Accounts.Backup
use my_account_controller.Accounts.Controller
use my_account_controller.Server.Keeps.{Keeps, same_keys, unlocked_route}
use my_account_controller.Server.Keys.Accounts.{
  find_one-keys, create-keys, update-keys, remove-keys, export_accounts-keys, import_accounts-keys,
}

module _ (prisma : Prisma) (crypto : CryptoService) where
  pub find_all :
      (contains : Text → Text → Bool) (category q : Option Text)
      → Keeps (Controller.find_all prisma crypto contains category q)
  unfolding Controller.find_all Service.find_all
  find_all contains category q =
      unlocked_route (λ u. Service.find_all prisma crypto contains u.0 category q)
        (λ u. same_keys _ (λ w. refl))

  pub find_one : (id : Text) → Keeps (Controller.find_one prisma crypto id)
  unfolding Controller.find_one
  find_one id =
      unlocked_route (λ u. Service.find_one prisma crypto u.0 id u.1)
        (λ u. same_keys _ (find_one-keys prisma crypto u.0 id u.1))

  pub create : (d : AccountData) → Keeps (Controller.create prisma crypto d)
  unfolding Controller.create
  create d =
      unlocked_route (λ u. Service.create prisma crypto u.0 u.1 d)
        (λ u. same_keys _ (create-keys prisma crypto u.0 u.1 d))

  pub update : (id : Text) (d : AccountChange) → Keeps (Controller.update prisma crypto id d)
  unfolding Controller.update
  update id d =
      unlocked_route (λ u. Service.update prisma crypto u.0 id u.1 d)
        (λ u. same_keys _ (update-keys prisma crypto u.0 id u.1 d))

  pub remove : (id : Text) → Keeps (Controller.remove prisma crypto id)
  unfolding Controller.remove
  remove id =
      unlocked_route (λ u. Service.remove prisma crypto u.0 id)
        (λ u. same_keys _ (remove-keys prisma crypto u.0 id))

  pub generate_password :
      (random : Random) (n : ℕ) (o : Options)
      → Keeps (Controller.generate_password prisma crypto random n o)
  unfolding Controller.generate_password
  generate_password random n o =
      unlocked_route (λ u. pure (Generator.generate_password random n o))
        (λ u. same_keys _ (λ w. refl))

  module _ (json_format : Json) where
    pub export_accounts :
        (password : Text) → Keeps (Controller.export_accounts prisma crypto json_format password)
    unfolding Controller.export_accounts
    export_accounts password =
        unlocked_route (λ u. Backup.export_accounts prisma crypto json_format u.0 u.1 password)
          (λ u. same_keys _ (export_accounts-keys prisma crypto json_format u.0 u.1 password))

    pub import_accounts :
        (password : Text) (file : BackupFile)
        → Keeps (Controller.import_accounts prisma crypto json_format password file)
    unfolding Controller.import_accounts
    import_accounts password file =
        unlocked_route (λ u. Backup.import_accounts prisma crypto json_format u.0 u.1 password file)
          (λ u. same_keys _ (import_accounts-keys prisma crypto json_format u.0 u.1 password file))
