-- ===== src/Tests/Vault.antt =====
-- Runs of the vault: an account is created, read, changed and removed.
use my_account_controller.Common.{
  or_else, ◌≡◌, ◌≢◌, ◌⊎◌, refl, sym, ap, ◌∙◌, arith, true, some, none, [], ◌∷◌, ◌++◌, codes, ok,
  err, Memᴰ, head, tail, Result, not_found, conflict, account_missing, duplicate_account, given,
  length, Text-discrete,
}
use native.Mathlib.Decide.{ℕ_discrete}
use my_account_controller.Crypto.Encoding.{to_well_formed}
use my_account_controller.Database.{Account, account_clash}
use my_account_controller.Accounts.Service.{
  AccountData, AccountChange, owned, with_owner, owner_exists, changed, find_one, create, update,
  remove,
}
use my_account_controller.Accounts.Service.Vault.{NoClash, create-find_one, create_conflict}
use my_account_controller.Accounts.Service.Isolation.{
  foreign_account, update_isolated, remove_isolated,
}
use my_account_controller.Tests.Primitives.{crypto, fit}
use my_account_controller.Tests.Server.{client, alice, bob, world, bank, shop, alice_key}
use my_account_controller.World.{World}

abbrev sent : AccountData
sent = record {
  service_name = codes "Post";
  url_or_app_name = codes "post.org";
  category = [];
  login_id = codes "al";
  password = codes "stamp";
  custom_fields = none;
  memo = none;
}

abbrev creation : World → AccountData → Result Account × World
creation w d = create client crypto alice alice_key d w

abbrev post : Account
post = record {
  id = 1_001 ∷ [];
  user_id = alice;
  service_name = codes "Post";
  url_or_app_name = codes "post.org";
  category = [];
  login_id = codes "al";
  encrypted_password = fit 12 (0 ∷ []) ++ (fit 16 [] ++ (alice_key ++ codes "stamp"));
  custom_fields = none;
  memo = none;
  created_at = 2_000;
  updated_at = 2_000;
}

created : creation world sent ≡ (ok post, (creation world sent).1)
unfolding create my_account_controller.Crypto.Aes.encrypt account_clash Text-discrete
    my_account_controller.Accounts.Service.new_account ℕ_discrete
    my_account_controller.Crypto.Aes.framed to_well_formed
created = refl

key_fits : length alice_key ≡ 32
key_fits = refl

create-find_one_example :
    find_one client crypto alice post.id alice_key (creation world sent).1
    ≡ (ok (post, to_well_formed (codes "stamp")), (creation world sent).1)
create-find_one_example = create-find_one client crypto alice alice_key world sent key_fits created

bank-shop : account_clash bank shop ≡ true → ⊥
unfolding account_clash Text-discrete ℕ_discrete
bank-shop h = cc

shop-bank : account_clash shop bank ≡ true → ⊥
unfolding account_clash Text-discrete ℕ_discrete
shop-bank h = cc

same_clash :
    {a b c d : Account} → a ≡ c → b ≡ d → account_clash a b ≡ true → account_clash c d ≡ true
same_clash e f h = cc

-- The tables of the tests hold two rows that do not clash.
no_clash : NoClash world.db.accounts
no_clash a b (head e) (head f) h = e ∙ sym f
no_clash a b (head e) (tail (head f)) h = absurd (bank-shop (same_clash e f h))
no_clash a b (tail (head e)) (head f) h = absurd (shop-bank (same_clash e f h))
no_clash a b (tail (head e)) (tail (head f)) h = e ∙ sym f
no_clash a b (tail (tail m)) n h = elim m [ ]
no_clash a b m (tail (tail n)) h = elim n [ ]

-- The site and login of a row that is there.
abbrev again : AccountData
again = record sent { url_or_app_name = codes "bank.com" }

refused : creation world again ≡ (err (conflict duplicate_account), (creation world again).1)
unfolding create my_account_controller.Crypto.Aes.encrypt account_clash Text-discrete
    my_account_controller.Accounts.Service.new_account ℕ_discrete
refused = refl

create_conflict_example :
    ((creation world again).1.db ≡ world.db)
    × ((q : Account) × Memᴰ q world.db.accounts
        × ((q.id ≡ client.uuid 1)
            ⊎ ((q.user_id ≡ alice)
                × (q.url_or_app_name ≡ codes "bank.com")
                × (q.login_id ≡ codes "al"))))
create_conflict_example = create_conflict client crypto alice alice_key world again refused

abbrev change : AccountChange
change = record {
  service_name = some (codes "Bank of A");
  url_or_app_name = none;
  category = none;
  login_id = none;
  password = none;
  memo = none;
  id = none;
  user_id = none;
  encrypted_password = some (codes "raw");
  custom_fields = none;
  created_at = none;
  updated_at = none;
}

bank_id : bank.id ≢ 11 ∷ []
bank_id h = ground arith

bob-alice : bob ≢ alice
bob-alice h = ground arith

-- No row of Alice has Bob's id.
shop_is_bobs : (a : Account) → Memᴰ a world.db.accounts → a.id ≡ 11 ∷ [] → a.user_id ≢ alice
shop_is_bobs a (head e) h o = bank_id (ap (λ r. r.id) (sym e) ∙ h)
shop_is_bobs a (tail (head e)) h o = bob-alice (ap (λ r. r.user_id) (sym e) ∙ o)
shop_is_bobs a (tail (tail m)) h o = elim m [ ]

foreign_account_example :
    (find_one client crypto alice (11 ∷ []) alice_key world
      ≡ (err (not_found account_missing), world))
    × (update client crypto alice (11 ∷ []) alice_key change world
        ≡ (err (not_found account_missing), world))
    × (remove client crypto alice (11 ∷ []) world ≡ (err (not_found account_missing), world))
foreign_account_example =
    foreign_account client crypto alice (11 ∷ []) alice_key world change shop_is_bobs

abbrev updating : Result (Unit {0}) × World
updating = update client crypto alice bank.id alice_key change world

updated : updating ≡ (ok tt, updating.1)
unfolding update owned changed account_clash with_owner owner_exists Text-discrete ℕ_discrete
updated = refl

bank_there : Memᴰ bank world.db.accounts
bank_there = head refl

update_isolated_example :
    ((bank.user_id ≢ alice) ⊎ (bank.id ≢ bank.id) → Memᴰ bank updating.1.db.accounts)
    × (bank.id ≡ bank.id
        → (r : Account) × Memᴰ r updating.1.db.accounts
          × (r.id ≡ or_else change.id bank.id)
          × (r.user_id ≡ or_else change.user_id alice)
          × (given change.password ≡ none
              → r.encrypted_password ≡ or_else change.encrypted_password bank.encrypted_password))
update_isolated_example =
    update_isolated client crypto alice bank.id alice_key world change no_clash updated bank
      bank_there

abbrev removing : Result (Unit {0}) × World
removing = remove client crypto alice bank.id world

removed : removing ≡ (ok tt, removing.1)
unfolding remove my_account_controller.Accounts.Service.owned Text-discrete ℕ_discrete
removed = refl

remove_isolated_example :
    ((r : Account) → Memᴰ r removing.1.db.accounts → Memᴰ r world.db.accounts × (r.id ≢ bank.id))
    × ((q : Account) → Memᴰ q world.db.accounts → q.id ≢ bank.id → Memᴰ q removing.1.db.accounts)
    × ((q : Account) → Memᴰ q world.db.accounts → q.user_id ≢ alice → Memᴰ q removing.1.db.accounts)
remove_isolated_example =
    remove_isolated client crypto alice bank.id alice_key world no_clash removed
