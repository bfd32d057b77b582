-- ===== src/Server/Keys/Accounts.antt =====
-- The services of the accounts (apps/api/src/accounts) and the key store.
use my_account_controller.Common.{
  ℕ, ◌+◌, ◌≡◌, refl, ◌∙◌, arith, Bool, true, false, Option, none, some, List, [], ◌∷◌, Text, Result,
  ok, err, Error, ap, Option-cases, Result-cases, inl, inr,
}
use my_account_controller.Crypto.{CryptoService}
use my_account_controller.Crypto.Encoding.{Bytes}
use my_account_controller.Database.{Prisma}
use my_account_controller.Accounts.Service.{
  AccountData, AccountChange, find_one, create, update, remove,
}
use my_account_controller.Accounts.Backup.{
  Json, BackupFile, export_accounts, import_entry, import_entries, import_accounts,
}
use my_account_controller.World.{World}

module _ (prisma : Prisma) (crypto : CryptoService) where
  pub find_one-keys :
      (user_id id : Text) (key : Bytes) (w : World)
      → (find_one prisma crypto user_id id key w).1.keys ≡ w.keys
  unfolding find_one
  find_one-keys user_id id key w = ground arith

  pub create-keys :
      (user_id : Text) (key : Bytes) (d : AccountData) (w : World)
      → (create prisma crypto user_id key d w).1.keys ≡ w.keys
  unfolding create
  create-keys user_id key d w = ground arith

  pub update-keys :
      (user_id id : Text) (key : Bytes) (d : AccountChange) (w : World)
      → (update prisma crypto user_id id key d w).1.keys ≡ w.keys
  unfolding update
  update-keys user_id id key d w = ground arith

  pub remove-keys :
      (user_id id : Text) (w : World) → (remove prisma crypto user_id id w).1.keys ≡ w.keys
  unfolding remove
  remove-keys user_id id w = ground arith

  module _ (json_format : Json) where
    pub export_accounts-keys :
        (user_id : Text) (key : Bytes) (password : Text) (w : World)
        → (export_accounts prisma crypto json_format user_id key password w).1.keys ≡ w.keys
    unfolding export_accounts
    export_accounts-keys user_id key password w = ground arith

    import_entry-keys :
        (user_id : Text) (key : Bytes) (d : AccountData) (w : World)
        → (import_entry prisma crypto json_format user_id key d w).1.keys ≡ w.keys
    unfolding import_entry
    import_entry-keys user_id key d w = elim (Option-cases d.custom_fields) [
      | inl null ↦ ground (arith, null)
      | inr (fields, there) ↦ ground (arith, there, create-keys user_id key d w)
    ]

    import_entries-keys :
        (user_id : Text) (key : Bytes) (es : List AccountData) (i s : ℕ) (w : World)
        → (import_entries prisma crypto json_format user_id key es i s w).1.keys ≡ w.keys
    unfolding import_entries
    import_entries-keys user_id key [] i s w = refl
    import_entries-keys user_id key (e ∷ es) i s w =
        let v = (import_entry prisma crypto json_format user_id key e w).1 in
        ground (
          arith,
          import_entry-keys user_id key e w,
          import_entries-keys user_id key es (i + 1) s v,
          import_entries-keys user_id key es i (s + 1) v,
        )

    pub import_accounts-keys :
        (user_id : Text) (key : Bytes) (password : Text) (file : BackupFile) (w : World)
        → (import_accounts prisma crypto json_format user_id key password file w).1.keys ≡ w.keys
    unfolding import_accounts
    import_accounts-keys user_id key password file w =
        elim (Result-cases (
          my_account_controller.Common.from_result
            (my_account_controller.Accounts.Backup.read_backup prisma crypto json_format password
              file)
            w)) [
              | inl (es, v, e) ↦ ground (arith, e, import_entries-keys user_id key es 0 0 w)
              | inr (x, v, e) ↦ ground (arith, e)
            ]
