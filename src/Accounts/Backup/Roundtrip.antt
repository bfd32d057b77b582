-- ===== src/Accounts/Backup/Roundtrip.antt =====
-- Reading a backup, and the counters of an import (accounts/accounts.service.ts).
use my_account_controller.Common.{
  ℕ, ◌+◌, ◌≡◌, refl, Bool, true, false, some, List, [], ◌∷◌, Text, ◌==◌, ok, err, Result, Error,
  arith, length, Option-cases, inl, inr, ◌⊎◌,
}
use my_account_controller.Database.{Account, Prisma}
use my_account_controller.Crypto.{CryptoService}
use my_account_controller.Crypto.Encoding.{Bytes}
use my_account_controller.Accounts.Service.{AccountData}
use my_account_controller.Accounts.Backup.{
  Json, BackupFile, plain_entry, plain_entries, export_accounts, read_backup, import_entry,
  import_entries,
}
use my_account_controller.World.{World}

import_cases :
    (x : Result Bool × World)
    → ((b : Bool) × (v : World) × (x ≡ (ok b, v))) ⊎ ((e : Error) × (v : World) × (x ≡ (err e, v)))
import_cases (ok b, v) = inl (b, v, refl)
import_cases (err e, v) = inr (e, v, refl)

module _ (prisma : Prisma) (crypto : CryptoService) (json_format : Json) where
  -- Entry by entry, the accounts with their passwords in the clear.
  abbrev pub ArePlain : Bytes → List Account → List AccountData → Type 0
  ArePlain key [] [] = Unit
  ArePlain key [] (e ∷ es) = ⊥
  ArePlain key (a ∷ accounts) [] = ⊥
  ArePlain key (a ∷ accounts) (e ∷ es) =
      ((p : Text) × (crypto.decrypt a.encrypted_password key ≡ some p)
        × (e ≡ plain_entry prisma crypto json_format a p))
      × ArePlain key accounts es

  plain_entries-ArePlain :
      (accounts : List Account) (key : Bytes) {es : List AccountData}
      → plain_entries prisma crypto json_format accounts key ≡ some es
      → ArePlain key accounts es
  unfolding plain_entries
  plain_entries-ArePlain [] key {es = []} h = tt
  plain_entries-ArePlain [] key {es = e ∷ es} h = absurd (ground arith)
  plain_entries-ArePlain (a ∷ accounts) key {es = es} h =
      elim (Option-cases (crypto.decrypt a.encrypted_password key)) [
        | inl failed ↦ absurd (ground arith)
        | inr (p, opened) ↦
            elim (Option-cases (plain_entries prisma crypto json_format accounts key)) [
              | inl failed ↦ absurd (ground arith)
              | inr (later, rest) ↦
                  let e : plain_entry prisma crypto json_format a p ∷ later ≡ es = ground arith in
                  rw (← e) ((p, opened, refl), plain_entries-ArePlain accounts key rest)
            ]
      ]

  -- A file that was exported is read, under the same password, as the entries of all accounts of
  -- the user, ordered by their creation, with their passwords in the clear.
  pub read_backup-export_accounts :
      (user_id export_password : Text) (key : Bytes) (w : World) {file : BackupFile} {w' : World}
      → export_accounts prisma crypto json_format user_id key export_password w ≡ (ok file, w')
      → (es : List AccountData) × (read_backup prisma crypto json_format export_password file
          ≡ ok es)
        × ArePlain key
            (prisma.accounts.find_asc (λ a. a.created_at) (λ a. a.user_id == user_id) w.db.accounts)
            es
        × (file.version ≡ 1)
        × (w'.db ≡ w.db)
  unfolding export_accounts read_backup
  read_backup-export_accounts user_id export_password key w {file} {w'} h =
      let accounts =
        prisma.accounts.find_asc (λ a. a.created_at) (λ a. a.user_id == user_id) w.db.accounts in
      let salt = crypto.generate_kdf_salt w.draws in
      let export_key = crypto.derive_encryption_key export_password salt in
      elim (Option-cases (plain_entries prisma crypto json_format accounts key)) [
        | inl failed ↦ absurd (ground arith)
        | inr (es, plain) ↦
            let (payload, sealed, back) =
              crypto.decrypt-encrypt (w.draws + 1) (json_format.stringify es) export_key
                (crypto.length-derive export_password salt) in
            let text = json_format.stringify_well_formed es in
            let parsed = json_format.parse-stringify es in
            (
              es,
              ground (arith, sealed, back, text, parsed),
              plain_entries-ArePlain accounts key plain,
              ground (arith, sealed),
              ground (arith, sealed),
            )
      ]

  -- An import that ends counts every entry once, as imported or as skipped.
  import_entries_count :
      (user_id : Text) (key : Bytes) (es : List AccountData) (i s : ℕ) (w : World) {n m : ℕ}
      {w' : World}
      → import_entries prisma crypto json_format user_id key es i s w ≡ (ok (n, m), w')
      → n + m ≡ i + s + length es
  unfolding import_entries
  import_entries_count user_id key [] i s w h = ground arith
  import_entries_count user_id key (e ∷ es) i s w {n} {m} {w'} h =
      elim (import_cases (import_entry prisma crypto json_format user_id key e w)) [
        | inl (true, v, stored) ↦
            let step : import_entries prisma crypto json_format user_id key es (i + 1) s v
                ≡ (ok (n, m), w') =
              ground (arith, stored) in
            ground (arith, import_entries_count user_id key es (i + 1) s v step)
        | inl (false, v, stored) ↦
            let step : import_entries prisma crypto json_format user_id key es i (s + 1) v
                ≡ (ok (n, m), w') =
              ground (arith, stored) in
            ground (arith, import_entries_count user_id key es i (s + 1) v step)
        | inr (x, v, stored) ↦ absurd (ground (arith, stored))
      ]
