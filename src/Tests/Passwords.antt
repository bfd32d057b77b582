-- ===== src/Tests/Passwords.antt =====
-- Runs of the change of the master password.
use my_account_controller.Common.{
  ℕ, ◌≡◌, ◌≢◌, refl, sym, ◌∙◌, ◌==◌, arith, true, some, [], ◌∷◌, Text, codes, ok, err, ap, cipher,
  Text-discrete, Memᴰ, head, tail, Result,
}
use my_account_controller.Database.{User, Account, TrustedDevice}
use my_account_controller.Auth.KeyStore
use my_account_controller.Auth.Service.{
  change_master_password, rekey, reencrypt_all, reencrypt, is_too_short,
}
use my_account_controller.Auth.Service.Change.{change_master_password_atomic}
use my_account_controller.Auth.Service.Elsewhere.{change_master_password_elsewhere}
use my_account_controller.Auth.Guards.Laws.{IsOpen}
use my_account_controller.Auth.Session.{Session}
use my_account_controller.Auth.Service.NewKey.{
  IdsDistinct, change_master_password_rekeys, change_master_password_others,
  change_master_password_user,
}
use my_account_controller.Auth.Service.Rekey.{SameButPassword, SamePassword}
use my_account_controller.Crypto.Encoding.{Bytes, to_well_formed}
use my_account_controller.Crypto.Aes.{encrypt, decrypt, framed}
use my_account_controller.Crypto.Kdf.{
  verify_master_password, hash_master_password, derive_encryption_key, generate_kdf_salt,
}
use my_account_controller.Database.{account_clash}
use native.Mathlib.Decide.{ℕ_discrete}
use my_account_controller.Tests.Primitives.{crypto}
use my_account_controller.Tests.Server.{
  client, alice, alice_key, entry, session, password, world, bank, shop,
}
use my_account_controller.World.{World}

abbrev new_password : Text
new_password = codes "new password"

abbrev change : World → Result ℕ × World
change = change_master_password client crypto alice password new_password

abbrev done : World
done = (change world).1

change_ok : change world ≡ (ok 0, done)
unfolding change_master_password rekey reencrypt_all reencrypt is_too_short encrypt decrypt framed
    verify_master_password hash_master_password derive_encryption_key generate_kdf_salt
    to_well_formed Text-discrete ℕ_discrete account_clash
change_ok = refl

ids_differ : bank.id ≢ shop.id
ids_differ h = ground arith

ids_distinct : IdsDistinct world.db.accounts
ids_distinct a b (head e) (head f) h = e ∙ sym f
ids_distinct a b (head e) (tail (head f)) h =
    absurd (ids_differ (ap (λ r. r.id) (sym e) ∙ (h ∙ ap (λ r. r.id) f)))
ids_distinct a b (tail (head e)) (head f) h =
    absurd (ids_differ (ap (λ r. r.id) (sym f) ∙ (sym h ∙ ap (λ r. r.id) e)))
ids_distinct a b (tail (head e)) (tail (head f)) h = e ∙ sym f
ids_distinct a b (tail (tail m)) n h = elim m [ ]
ids_distinct a b m (tail (tail n)) h = elim n [ ]

abbrev new_key : Bytes
new_key = crypto.derive_encryption_key new_password (crypto.generate_kdf_salt 0)

change_master_password_rekeys_example :
    (u : User) × Memᴰ u world.db.users
    × (u.id ≡ alice)
    × (crypto.verify_master_password password u.master_password_hash ≡ true)
    × (KeyStore.get done.session.id done.keys ≡ some new_key)
    × ((q : Account)
        → Memᴰ q world.db.accounts
        → q.user_id ≡ alice
        → (r : Account) × Memᴰ r done.db.accounts
          × SameButPassword client crypto
              (crypto.derive_encryption_key password u.master_kdf_salt)
              new_key
              q
              r
          × SamePassword client crypto
              (crypto.derive_encryption_key password u.master_kdf_salt)
              new_key
              q.encrypted_password
              r.encrypted_password)
change_master_password_rekeys_example =
    change_master_password_rekeys client crypto alice password new_password world ids_distinct
      change_ok

change_master_password_others_example :
    ((q : Account) → Memᴰ q world.db.accounts → q.user_id ≢ alice → Memᴰ q done.db.accounts)
    × ((r : Account)
        → Memᴰ r done.db.accounts
        → (q : Account) × Memᴰ q world.db.accounts × (q.id ≡ r.id) × (q.user_id ≡ r.user_id))
change_master_password_others_example =
    change_master_password_others client crypto alice password new_password world ids_distinct
      change_ok

change_master_password_user_example :
    ((u : User)
      → Memᴰ u done.db.users
      → u.id ≡ alice
      → (crypto.verify_master_password new_password u.master_password_hash ≡ true)
        × (KeyStore.get done.session.id done.keys
            ≡ some (crypto.derive_encryption_key new_password u.master_kdf_salt)))
    × ((d : TrustedDevice) → Memᴰ d done.db.devices → d.user_id ≢ alice)
    × (0 ≡ client.devices.count (λ d. d.user_id == alice) world.db.devices)
change_master_password_user_example =
    change_master_password_user client crypto alice password new_password world change_ok

-- The second of Alice's passwords does not decrypt.
abbrev damaged : World
damaged = record world {
  db = record world.db {
    accounts = bank ∷ record bank { id = 12 ∷ []; login_id = []; encrypted_password = [] } ∷ [];
  };
}

change_fails : change damaged ≡ (err cipher, (change damaged).1)
unfolding change_master_password rekey reencrypt_all reencrypt is_too_short encrypt decrypt framed
    verify_master_password hash_master_password derive_encryption_key generate_kdf_salt
    to_well_formed Text-discrete ℕ_discrete account_clash
change_fails = refl

change_master_password_atomic_example :
    ((change damaged).1.db ≡ damaged.db)
    × ((change damaged).1.keys ≡ damaged.keys)
    × ((change damaged).1.session ≡ damaged.session)
change_master_password_atomic_example =
    change_master_password_atomic client crypto alice password new_password damaged change_fails

-- Alice's other session, open with the old key.
abbrev elsewhere : Session
elsewhere = record session { id = codes "sid2" }

abbrev twice : World
twice = record world { keys = (codes "sid", entry) ∷ (codes "sid2", entry) ∷ [] }

elsewhere-IsOpen : IsOpen (record twice { session = elsewhere }) alice alice_key
unfolding Text-discrete ℕ_discrete KeyStore.is_idle
elsewhere-IsOpen = (refl, refl, (entry, refl, refl, refl))

both_changed : change twice ≡ (ok 0, (change twice).1)
unfolding change_master_password rekey reencrypt_all reencrypt is_too_short encrypt decrypt framed
    verify_master_password hash_master_password derive_encryption_key generate_kdf_salt
    to_well_formed Text-discrete ℕ_discrete account_clash
both_changed = refl

ids_apart : codes "sid2" ≢ codes "sid"
ids_apart h = ground arith

change_master_password_elsewhere_example :
    IsOpen (record (change twice).1 { session = elsewhere }) alice alice_key
change_master_password_elsewhere_example =
    change_master_password_elsewhere client crypto alice password new_password twice elsewhere alice
      alice_key ids_apart elsewhere-IsOpen both_changed
