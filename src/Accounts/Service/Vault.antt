-- ===== src/Accounts/Service/Vault.antt =====
-- Creating accounts, and the unique constraint of the table (accounts/accounts.service.ts).
use my_account_controller.Common.{
  ◌+◌, ◌≡◌, true, false, ◌&&◌, some, List, Text, ◌==◌, length, ok, err, arith, Memᴰ, inl, inr, ◌⊎◌,
  Option-cases, conflict, duplicate_account,
}
use my_account_controller.Database.{Account, Prisma, written, Written-cases, account_clash}
use my_account_controller.Crypto.{CryptoService}
use my_account_controller.Crypto.Encoding.{Bytes, to_well_formed}
use my_account_controller.Accounts.Service.{AccountData, owned, new_account, create, find_one}
use my_account_controller.World.{World}

-- The constraints of the table: no two rows clash.
abbrev pub NoClash : List Account → Type 0
NoClash rows = (a b : Account) → Memᴰ a rows → Memᴰ b rows → account_clash a b ≡ true → a ≡ b

pub clash_sym : (a b : Account) → account_clash a b ≡ true → account_clash b a ≡ true
unfolding account_clash
clash_sym a b h = ground arith

new_old_apart :
    (a old x : Account) → account_clash a old ≡ false → x ≡ a → account_clash x old ≡ true → ⊥
new_old_apart a old x f e t = ground arith

module _ (prisma : Prisma) (crypto : CryptoService) (user_id : Text) (key : Bytes) where
  -- The row that a create writes, with the ciphertext.
  abbrev row_of : World → AccountData → Text → Account
  row_of w d payload = new_account prisma crypto user_id d payload (w.draws + 1) w.now

  -- What a create that succeeds went through.
  abbrev Created : World → AccountData → Account → World → Type 0
  Created w d a w' =
      (payload : Text) × (crypto.encrypt w.draws d.password key ≡ some payload)
      × (a ≡ row_of w d payload)
      × (prisma.accounts.create account_clash a w.db.accounts ≡ written w'.db.accounts)
      × (w' ≡ record w { draws = w.draws + 1 + 1; db = record w.db { accounts = w'.db.accounts } })

  pub create_lem :
      (w : World) (d : AccountData) {a : Account} {w' : World}
      → create prisma crypto user_id key d w ≡ (ok a, w')
      → Created w d a w'
  unfolding create
  create_lem w d {a} {w'} h = elim (Option-cases (crypto.encrypt w.draws d.password key)) [
    | inl failed ↦ absurd (ground arith)
    | inr (payload, sealed) ↦
        elim (Written-cases
          (prisma.accounts.create account_clash (row_of w d payload) w.db.accounts)) [
            | inl (rows, stored) ↦ (
              payload,
              sealed,
              ground (arith, stored),
              ground (arith, stored),
              ground (arith, stored),
            )
            | inr (c, failed) ↦
                let e = (prisma.accounts.create_refused _ _ _ failed).0 in
                absurd (ground (arith, failed, e))
          ]
  ]

  -- An account that was created is found under its id by its user, and its password decrypts to
  -- the one that was given, but for lone surrogates.
  pub create-find_one :
      (w : World) (d : AccountData) {a : Account} {w' : World}
      → length key ≡ 32
      → create prisma crypto user_id key d w ≡ (ok a, w')
      → find_one prisma crypto user_id a.id key w' ≡ (ok (a, to_well_formed d.password), w')
  unfolding find_one owned account_clash new_account
  create-find_one w d {a} {w'} fits h =
      let (payload, sealed, row, stored, after) = create_lem w d h in
      let (c, sealed', back) = crypto.decrypt-encrypt w.draws d.password key fits in
      let pick = λ (x : Account). x.id == a.id && x.user_id == user_id in
      elim (Option-cases (prisma.accounts.find_first pick w'.db.accounts)) [
        | inl missing ↦
            let none_picked =
              prisma.accounts.find_first_none pick w'.db.accounts missing
                (prisma.accounts.create_adds _ _ _ stored) in
            absurd (ground (arith, row))
        | inr (q, found) ↦
            let (m, picked) = prisma.accounts.find_first_some pick w'.db.accounts found in
            let here : q ≡ a = elim (prisma.accounts.create_only _ _ _ stored m) [
              | inl e ↦ e
              | inr old ↦
                  let apart = prisma.accounts.create_fits _ _ _ stored q old in
                  absurd (ground arith)
            ] in
            ground (arith, here, found, row, sealed, sealed', back)
      ]

  -- A create keeps the constraints of the table.
  create-NoClash :
      (w : World) (d : AccountData) {a : Account} {w' : World}
      → NoClash w.db.accounts
      → create prisma crypto user_id key d w ≡ (ok a, w')
      → NoClash w'.db.accounts
  create-NoClash w d {a} {w'} clean h x y mx my clash =
      let (payload, sealed, row, stored, after) = create_lem w d h in
      let fits = prisma.accounts.create_fits _ _ _ stored in
      elim (prisma.accounts.create_only _ _ _ stored mx) [
        | inl ex ↦ elim (prisma.accounts.create_only _ _ _ stored my) [
          | inl ey ↦ ground arith
          | inr oy ↦ absurd (new_old_apart a y x (fits y oy) ex clash)
        ]
        | inr ox ↦ elim (prisma.accounts.create_only _ _ _ stored my) [
          | inl ey ↦ absurd (new_old_apart a x y (fits x ox) ey (clash_sym x y clash))
          | inr oy ↦ clean x y ox oy clash
        ]
      ]

  -- A create that meets a conflict leaves the database alone, and there is a row with the new id,
  -- or one of the same user, site and login.
  pub create_conflict :
      (w : World) (d : AccountData) {w' : World}
      → create prisma crypto user_id key d w ≡ (err (conflict duplicate_account), w')
      → (w'.db ≡ w.db)
        × ((q : Account) × Memᴰ q w.db.accounts
            × ((q.id ≡ prisma.uuid (w.draws + 1))
                ⊎ ((q.user_id ≡ user_id)
                    × (q.url_or_app_name ≡ d.url_or_app_name)
                    × (q.login_id ≡ d.login_id))))
  unfolding create account_clash new_account
  create_conflict w d {w'} h = elim (Option-cases (crypto.encrypt w.draws d.password key)) [
    | inl failed ↦ absurd (ground arith)
    | inr (payload, sealed) ↦
        elim (Written-cases
          (prisma.accounts.create account_clash (row_of w d payload) w.db.accounts)) [
            | inl (rows, stored) ↦ absurd (ground (arith, stored))
            | inr (c, failed) ↦
                let (e, (q, m, clash)) = prisma.accounts.create_refused _ _ _ failed in
                (ground (arith, failed, e), (q, m, ground arith))
          ]
  ]
