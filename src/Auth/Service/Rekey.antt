-- ===== src/Auth/Service/Rekey.antt =====
-- The loop of `changeMasterPassword` (auth/auth.service.ts): what it does to each account.
use my_account_controller.Common.{
  ℕ, ◌+◌, ◌≡◌, ◌≢◌, refl, sym, ◌∙◌, ap, false, Option, some, List, [], ◌∷◌, Text, ◌==◌, length, ok,
  arith, Memᴰ, head, tail, ◌⊎◌, inl, inr, Option-cases, if◌then◌else◌, not-==, ==_yes,
  Text-discrete,
}
use my_account_controller.Database.{Account, Prisma, Written, written, Written-cases, account_clash}
use my_account_controller.Crypto.{CryptoService}
use my_account_controller.Crypto.Encoding.{Bytes}
use my_account_controller.World.{World}
use my_account_controller.Auth.Service.{reencrypt, reencrypt_all}

module _ (prisma : Prisma) (crypto : CryptoService) (old_key new_key : Bytes) where
  open crypto use {decrypt}

  -- Two payloads hold one password, the first under the old key and the second under the new.
  abbrev pub SamePassword : Text → Text → Type 0
  SamePassword before after =
      (p : Text) × (decrypt before old_key ≡ some p) × (decrypt after new_key ≡ some p)

  pub reencrypt-SamePassword :
      (payload : Text) (d : ℕ) {payload' : Text}
      → length new_key ≡ 32
      → reencrypt prisma crypto old_key new_key payload d ≡ some payload'
      → SamePassword payload payload'
  unfolding reencrypt
  reencrypt-SamePassword payload d {payload'} fits h =
      elim (Option-cases (decrypt payload old_key)) [
        | inl failed ↦ absurd (ground arith)
        | inr (p, opened) ↦
            let (c, sealed, back) = crypto.decrypt-encrypt d p new_key fits in
            let same : c ≡ payload' = ground (arith, sealed) in
            (
              p,
              opened,
              rw (← same) (back ∙ ap some (crypto.decrypt_well_formed payload old_key opened)),
            )
      ]

  -- No account of the list has the id.
  abbrev pub Absent : List Account → Text → Type 0
  Absent accounts id = (a : Account) → Memᴰ a accounts → a.id ≢ id

  Absent-cons :
      (a : Account) (rest : List Account) (id : Text)
      → a.id ≢ id
      → Absent rest id
      → Absent (a ∷ rest) id
  Absent-cons a rest id h t x (head e) = λ k. h (ap (λ (y : Account). y.id) (sym e) ∙ k)
  Absent-cons a rest id h t x (tail m) = t x m

  -- Two rows that agree but for the stored password and the time of the change.
  abbrev pub SameButPassword : Account → Account → Type 0
  SameButPassword q r =
      r ≡ record q { encrypted_password = r.encrypted_password; updated_at = r.updated_at }

  -- A row after the loop over some accounts, and the row that it was: an account of the list has
  -- its id, and the password is that account's under the new key; or none has, and it is the same.
  abbrev pub Rekeyed : List Account → Account → Account → Type 0
  Rekeyed accounts q r =
      ((r ≡ q) × Absent accounts q.id)
      ⊎ (SameButPassword q r
          × ((a : Account) × Memᴰ a accounts
              × (a.id ≡ q.id)
              × SamePassword a.encrypted_password r.encrypted_password))

  abbrev pub AllRekeyed : List Account → List Account → List Account → Type 0
  AllRekeyed accounts rows rows' =
      (r : Account) → Memᴰ r rows' → (q : Account) × Memᴰ q rows × Rekeyed accounts q r

  -- Rows whose ids the list lacks stay as they are.
  abbrev pub OthersKept : List Account → List Account → List Account → Type 0
  OthersKept accounts rows rows' = (q : Account) → Memᴰ q rows → Absent accounts q.id → Memᴰ q rows'

  Rekeyed-changed :
      (a : Account) (rest : List Account) (payload : Text) (now : ℕ) (q r : Account)
      → SamePassword a.encrypted_password payload
      → a.id ≡ q.id
      → Rekeyed rest (record q { encrypted_password = payload; updated_at = now }) r
      → Rekeyed (a ∷ rest) q r
  Rekeyed-changed a rest payload now q r (p, before, after) same_id (inl (e, absent)) =
      inr (ground arith, (a, head refl, same_id, (p, before, ground arith)))
  Rekeyed-changed a rest payload now q r (p, before, after) same_id (inr (e, (x, m, id, pw))) =
      inr (ground arith, (x, tail m, id, pw))

  Rekeyed-skipped :
      (a : Account) (rest : List Account) (q r : Account)
      → a.id ≢ q.id
      → Rekeyed rest q r
      → Rekeyed (a ∷ rest) q r
  Rekeyed-skipped a rest q r other (inl (e, absent)) = inl (e, Absent-cons a rest q.id other absent)
  Rekeyed-skipped a rest q r other (inr (e, (x, m, id, pw))) = inr (e, (x, tail m, id, pw))

  Rekeyed-cons :
      (a : Account) (rest : List Account) (payload : Text) (now : ℕ) (q r : Account)
      → SamePassword a.encrypted_password payload
      → Rekeyed rest
          (if q.id == a.id then record q { encrypted_password = payload; updated_at = now } else q)
          r
      → Rekeyed (a ∷ rest) q r
  Rekeyed-cons a rest payload now q r same h = elim (Text-discrete q.id a.id) [
    | yes e ↦ Rekeyed-changed a rest payload now q r same (sym e) (rw (==_yes e) at h)
    | no n ↦ Rekeyed-skipped a rest q r (λ e. n (sym e)) (rw (not-== n) at h)
  ]

  abbrev again : Account → World → Option Text
  again a w = reencrypt prisma crypto old_key new_key a.encrypted_password w.draws

  abbrev stored : Account → World → Text → Written Account
  stored a w payload =
      prisma.accounts.update account_clash (λ x. x.id == a.id)
        (λ x. record x { encrypted_password = payload; updated_at = w.now }) w.db.accounts

  -- One account of the loop: its draw, its new payload and the rows after the update.
  abbrev Round : Account → World → List Account → Type 0
  Round a w rows =
      (payload : Text) × SamePassword a.encrypted_password payload
      × (stored a w payload ≡ written rows)

  Round-of :
      (a : Account) (rest : List Account) (w : World) {w' : World}
      → length new_key ≡ 32
      → reencrypt_all prisma crypto old_key new_key (a ∷ rest) w ≡ (ok tt, w')
      → (rows : List Account) × Round a w rows
        × (reencrypt_all prisma crypto old_key new_key rest
              (record w { draws = w.draws + 1; db = record w.db { accounts = rows } })
            ≡ (ok tt, w'))
  unfolding reencrypt_all
  Round-of a rest w fits h = elim (Option-cases (again a w)) [
    | inl failed ↦ absurd (ground arith)
    | inr (payload, e) ↦ elim (Written-cases (stored a w payload)) [
      | inl (rows, u) ↦ (
        rows,
        (payload, reencrypt-SamePassword a.encrypted_password w.draws fits e, u),
        ground arith,
      )
      | inr (c, u) ↦ absurd (ground arith)
    ]
  ]

  -- Every row after the loop is a row from before it, rekeyed if its account was in the list.
  pub reencrypt_all-Rekeyed :
      (accounts : List Account) (w : World) {w' : World}
      → length new_key ≡ 32
      → reencrypt_all prisma crypto old_key new_key accounts w ≡ (ok tt, w')
      → AllRekeyed accounts w.db.accounts w'.db.accounts
  unfolding reencrypt_all
  reencrypt_all-Rekeyed [] w {w'} fits h = λ r m.
      let same : w.db.accounts ≡ w'.db.accounts = ground arith in
      (r, rw same m, inl (refl, λ a n. elim n [ ]))
  reencrypt_all-Rekeyed (a ∷ rest) w {w'} fits h = λ r m.
      let (rows, (payload, same, u), later) = Round-of a rest w fits h in
      let w1 = record w { draws = w.draws + 1; db = record w.db { accounts = rows } } in
      let (r1, m1, rekeyed) = reencrypt_all-Rekeyed rest w1 fits later r m in
      let (q, mq, e) = prisma.accounts.update_only account_clash (λ x. x.id == a.id) _ _ u m1 in
      (q, mq, Rekeyed-cons a rest payload w.now q r same (rw e at rekeyed))

  -- Rows whose ids the list lacks are there after the loop as before it.
  pub reencrypt_all-OthersKept :
      (accounts : List Account) (w : World) {w' : World}
      → length new_key ≡ 32
      → reencrypt_all prisma crypto old_key new_key accounts w ≡ (ok tt, w')
      → OthersKept accounts w.db.accounts w'.db.accounts
  unfolding reencrypt_all
  reencrypt_all-OthersKept [] w {w'} fits h =
      λ q m absent. let same : w.db.accounts ≡ w'.db.accounts = ground arith in rw (← same) m
  reencrypt_all-OthersKept (a ∷ rest) w {w'} fits h = λ q m absent.
      let (rows, (payload, same, u), later) = Round-of a rest w fits h in
      let w1 = record w { draws = w.draws + 1; db = record w.db { accounts = rows } } in
      let other : (q.id == a.id) ≡ false = not-== (λ e. absent a (head refl) (sym e)) in
      let kept = prisma.accounts.update_stores account_clash (λ x. x.id == a.id) _ _ u m in
      reencrypt_all-OthersKept rest w1 fits later q (rw other at kept) (λ x n. absent x (tail n))

  -- Every row from before the loop is there after it, but for its password and its time.
  pub reencrypt_all-SameButPassword :
      (accounts : List Account) (w : World) {w' : World}
      → length new_key ≡ 32
      → reencrypt_all prisma crypto old_key new_key accounts w ≡ (ok tt, w')
      → (q : Account) → Memᴰ q w.db.accounts
      → (r : Account) × Memᴰ r w'.db.accounts × SameButPassword q r
  unfolding reencrypt_all
  reencrypt_all-SameButPassword [] w {w'} fits h =
      λ q m. let same : w.db.accounts ≡ w'.db.accounts = ground arith in (q, rw (← same) m, refl)
  reencrypt_all-SameButPassword (a ∷ rest) w {w'} fits h = λ q m.
      let (rows, (payload, same, u), later) = Round-of a rest w fits h in
      let w1 = record w { draws = w.draws + 1; db = record w.db { accounts = rows } } in
      let q1 =
        if q.id == a.id then record q { encrypted_password = payload; updated_at = w.now } else q in
      let kept = prisma.accounts.update_stores account_clash (λ x. x.id == a.id) _ _ u m in
      let (r, n, e) = reencrypt_all-SameButPassword rest w1 fits later q1 kept in
      (r, n, ground arith)

  -- The loop touches the accounts and the draws alone.
  pub reencrypt_all_frame :
      (accounts : List Account) (w : World) {w' : World}
      → length new_key ≡ 32
      → reencrypt_all prisma crypto old_key new_key accounts w ≡ (ok tt, w')
      → w' ≡ record w { draws = w'.draws; db = record w.db { accounts = w'.db.accounts } }
  unfolding reencrypt_all
  reencrypt_all_frame [] w fits h = ground arith
  reencrypt_all_frame (a ∷ rest) w fits h =
      let (rows, (payload, same, u), later) = Round-of a rest w fits h in
      let w1 = record w { draws = w.draws + 1; db = record w.db { accounts = rows } } in
      let e = reencrypt_all_frame rest w1 fits later in ground arith

  -- Whether the loop ends well or not, the keys, the session and the time stay.
  pub reencrypt_all_keeps :
      (accounts : List Account) (w : World)
      → let w' = (reencrypt_all prisma crypto old_key new_key accounts w).1 in
        (w'.keys ≡ w.keys) × (w'.session ≡ w.session) × (w'.now ≡ w.now)
  unfolding reencrypt_all
  reencrypt_all_keeps [] w = (refl, refl, refl)
  reencrypt_all_keeps (a ∷ rest) w = elim (Option-cases (again a w)) [
    | inl failed ↦ ground arith
    | inr (payload, e) ↦ elim (Written-cases (stored a w payload)) [
      | inl (rows, u) ↦
          let w1 = record w { draws = w.draws + 1; db = record w.db { accounts = rows } } in
          ground (arith, reencrypt_all_keeps rest w1)
      | inr (c, u) ↦ ground arith
    ]
  ]
