-- ===== src/Accounts/Service/Isolation.antt =====
-- Changing and removing accounts, and the rows around them (accounts/accounts.service.ts).
use my_account_controller.Common.{
  ◌≡◌, ◌≢◌, refl, sym, Bool, true, false, Option, none, some, List, Text, ◌==◌, ok, err, arith,
  Memᴰ, inl, inr, ◌⊎◌, Option-cases, Bool-cases, eq_of_==, ==_yes, not-==, not_found,
  account_missing, given, ap, or_else, ◌∙◌,
}
use my_account_controller.Database.{
  Account, Prisma, Written, written, refused, Written-cases, account_clash,
}
use my_account_controller.Crypto.{CryptoService}
use my_account_controller.Crypto.Encoding.{Bytes}
use my_account_controller.Accounts.Service.{
  AccountChange, owned, with_owner, owner_exists, find_one, update, remove, changed,
}
use my_account_controller.Accounts.Service.Vault.{NoClash, clash_sym}
use my_account_controller.World.{World}

apart : {b : Bool} → b ≡ false → b ≡ true → ⊥
apart f t = ground arith

same_id_clash : (a b : Account) → a.id ≡ b.id → account_clash a b ≡ true
unfolding account_clash
same_id_clash a b e = ground arith

both_picked : (f : Account → Account) (q o x y : Account) → x ≡ f q → y ≡ f o → q ≡ o → x ≡ y
both_picked f q o x y ex ey e = ex ∙ (ap f e ∙ sym ey)

with_owner_written :
    (there : Bool) (result : Written Account) {rows : List Account}
    → with_owner there result ≡ written rows
    → result ≡ written rows
unfolding with_owner
with_owner_written true result h = h
with_owner_written false (written rows) h = cc
with_owner_written false (refused c) h = cc

module _ (prisma : Prisma) (crypto : CryptoService) (user_id id : Text) (key : Bytes) where
  -- A row of another user is no row of this user, whatever is asked for it: nothing is read,
  -- changed or removed, and the answer is that of an account that is not there.
  pub foreign_account :
      (w : World) (d : AccountChange)
      → ((a : Account) → Memᴰ a w.db.accounts → a.id ≡ id → a.user_id ≢ user_id)
      → (find_one prisma crypto user_id id key w ≡ (err (not_found account_missing), w))
        × (update prisma crypto user_id id key d w ≡ (err (not_found account_missing), w))
        × (remove prisma crypto user_id id w ≡ (err (not_found account_missing), w))
  unfolding find_one update remove owned
  foreign_account w d foreign =
      elim (Option-cases (prisma.accounts.find_first (owned user_id id) w.db.accounts)) [
        | inl missing ↦ (ground arith, ground arith, ground arith)
        | inr (a, found) ↦
            let (m, mine) = prisma.accounts.find_first_some _ _ found in
            absurd (foreign a m (ground arith) (ground arith))
      ]

  -- What an update that succeeds went through.
  abbrev Updated : World → AccountChange → World → Type 0
  Updated w d w' =
      (a : Account) × (payload : Option Text) × Memᴰ a w.db.accounts
      × (a.id ≡ id)
      × (a.user_id ≡ user_id)
      × (given d.password ≡ none → payload ≡ none)
      × (prisma.accounts.update account_clash (λ x. x.id == id) (changed d payload w.now)
            w.db.accounts
          ≡ written w'.db.accounts)

  abbrev write : World → AccountChange → Option Text → Written Account
  write w d payload =
      prisma.accounts.update account_clash (λ x. x.id == id) (changed d payload w.now) w.db.accounts

  -- What the write gives if the owner that the body names is there.
  abbrev write_owned : World → AccountChange → Option Text → Written Account
  write_owned w d payload =
      with_owner (owner_exists prisma crypto d.user_id w.db.users) (write w d payload)

  owned_write :
      (w : World) (d : AccountChange) (payload : Option Text) {rows : List Account}
      → write_owned w d payload ≡ written rows
      → write w d payload ≡ written rows
  owned_write w d payload h = with_owner_written _ _ h

  update_lem :
      (w : World) (d : AccountChange) {w' : World}
      → update prisma crypto user_id id key d w ≡ (ok tt, w')
      → Updated w d w'
  unfolding update owned
  update_lem w d {w'} h =
      elim (Option-cases (prisma.accounts.find_first (owned user_id id) w.db.accounts)) [
        | inl missing ↦ absurd (ground arith)
        | inr (a, found) ↦
            let (m, mine) = prisma.accounts.find_first_some _ _ found in
            elim (Option-cases (given d.password)) [
              | inl unsent ↦ elim (Written-cases (write_owned w d none)) [
                | inl (rows, stored) ↦ (
                  a,
                  none,
                  m,
                  ground arith,
                  ground arith,
                  (λ e. refl),
                  owned_write w d none (ground (arith, stored)),
                )
                | inr (c, failed) ↦ absurd (ground (arith, failed))
              ]
              | inr (p, sent) ↦ elim (Option-cases (crypto.encrypt w.draws p key)) [
                | inl failed ↦ absurd (ground arith)
                | inr (payload, sealed) ↦ elim (Written-cases (write_owned w d (some payload))) [
                  | inl (rows, stored) ↦ (
                    a,
                    some payload,
                    m,
                    ground arith,
                    ground arith,
                    (λ e. ground arith),
                    owned_write w d (some payload) (ground (arith, stored)),
                  )
                  | inr (c, failed) ↦ absurd (ground (arith, failed))
                ]
              ]
            ]
      ]

  -- An update that succeeds leaves every row of another user, and every row of another id, as it
  -- was. The row of the id has the id and the owner that the body names, and its own if the body
  -- names none; if no password was sent, it has the ciphertext that the body brings, and else its
  -- own.
  pub update_isolated :
      (w : World) (d : AccountChange) {w' : World}
      → NoClash w.db.accounts
      → update prisma crypto user_id id key d w ≡ (ok tt, w')
      → (q : Account) → Memᴰ q w.db.accounts
      → ((q.user_id ≢ user_id) ⊎ (q.id ≢ id) → Memᴰ q w'.db.accounts)
        × (q.id ≡ id
            → (r : Account) × Memᴰ r w'.db.accounts
              × (r.id ≡ or_else d.id id)
              × (r.user_id ≡ or_else d.user_id user_id)
              × (given d.password ≡ none
                  → r.encrypted_password ≡ or_else d.encrypted_password q.encrypted_password))
  unfolding changed
  update_isolated w d {w'} clean h q m =
      let (a, payload, ma, id_a, owner, unsent, stored) = update_lem w d h in
      let kept = prisma.accounts.update_stores account_clash (λ x. x.id == id) _ _ stored m in
      let same : q.id ≡ id → q ≡ a = λ e. clean q a m ma (same_id_clash q a (e ∙ sym id_a)) in
      (
        λ other.
            rw
              (not-== (λ e. elim other [
                | inl foreign ↦ foreign (ap (λ (x : Account). x.user_id) (same e) ∙ owner)
                | inr elsewhere ↦ elsewhere e
              ]))
              at kept,
        λ e. (
          changed d payload w.now q,
          rw (==_yes e) at kept,
          ap (or_else d.id) e,
          ap (or_else d.user_id) (ap (λ (x : Account). x.user_id) (same e) ∙ owner),
          λ none_sent.
              ap (λ p. or_else p (or_else d.encrypted_password q.encrypted_password))
                (unsent none_sent),
        ),
      )

  -- An update keeps the constraints of the table.
  update-NoClash :
      (w : World) (d : AccountChange) {w' : World}
      → NoClash w.db.accounts
      → update prisma crypto user_id id key d w ≡ (ok tt, w')
      → NoClash w'.db.accounts
  update-NoClash w d {w'} clean h x y mx my clash =
      let (a, payload, ma, id_a, owner, unsent, stored) = update_lem w d h in
      let pick = λ (x : Account). x.id == id in
      let (q, mq, eq) = prisma.accounts.update_only account_clash pick _ _ stored mx in
      let (o, mo, eo) = prisma.accounts.update_only account_clash pick _ _ stored my in
      let fits = λ (q o : Account).
        prisma.accounts.update_fits account_clash pick (changed d payload w.now) w.db.accounts
          {q = q} {o = o} stored in
      elim (Bool-cases (pick q)) [
        | inl pq ↦ elim (Bool-cases (pick o)) [
          | inl po ↦
              let one : q ≡ o =
                clean q o mq mo (same_id_clash q o (eq_of_== pq ∙ sym (eq_of_== po))) in
              both_picked (changed d payload w.now) q o x y (rw pq at eq) (rw po at eo) one
          | inr miss ↦ absurd (apart (fits q o mq pq mo miss) (rw (eq, pq, eo, miss) at clash))
        ]
        | inr nq ↦ elim (Bool-cases (pick o)) [
          | inl po ↦
              absurd (apart (fits o q mo po mq nq) (rw (eq, nq, eo, po) at (clash_sym x y clash)))
          | inr miss ↦ rw (eq, nq, eo, miss) (clean q o mq mo (rw (eq, nq, eo, miss) at clash))
        ]
      ]

  -- A removal that succeeds takes the rows of the id, which were the user's, and no other.
  pub remove_isolated :
      (w : World) {w' : World}
      → NoClash w.db.accounts
      → remove prisma crypto user_id id w ≡ (ok tt, w')
      → ((r : Account) → Memᴰ r w'.db.accounts → Memᴰ r w.db.accounts × (r.id ≢ id))
        × ((q : Account) → Memᴰ q w.db.accounts → q.id ≢ id → Memᴰ q w'.db.accounts)
        × ((q : Account) → Memᴰ q w.db.accounts → q.user_id ≢ user_id → Memᴰ q w'.db.accounts)
  unfolding remove owned
  remove_isolated w {w'} clean h =
      elim (Option-cases (prisma.accounts.find_first (owned user_id id) w.db.accounts)) [
        | inl missing ↦ absurd (ground arith)
        | inr (a, found) ↦
            let (ma, mine) = prisma.accounts.find_first_some _ _ found in
            let id_a : a.id ≡ id = ground arith in
            let owner : a.user_id ≡ user_id = ground arith in
            let left : w'.db.accounts
                ≡ prisma.accounts.delete_many (λ x. x.id == id) w.db.accounts =
              ground arith in
            let keeps : (q : Account) → Memᴰ q w.db.accounts → q.id ≢ id → Memᴰ q w'.db.accounts =
              λ q m n.
                rw left (
                  prisma.accounts.delete_many_keeps (λ x. x.id == id) w.db.accounts m (not-== n)) in
            (
              λ r m.
                  let m' : Memᴰ r (prisma.accounts.delete_many (λ x. x.id == id) w.db.accounts) =
                    rw left at m in
                  let (old, other) =
                    prisma.accounts.delete_many_only (λ x. x.id == id) w.db.accounts m' in
                  (old, λ e. apart other (==_yes e)),
              keeps,
              λ q m foreign. keeps q m (λ e. foreign (
                  ap (λ (x : Account). x.user_id)
                    (clean q a m ma (same_id_clash q a (e ∙ sym id_a)))
                  ∙ owner)),
            )
      ]
