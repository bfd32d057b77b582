-- ===== src/Server/Account.antt =====
-- Storing an account and reading it again, in the states that the server reaches
-- (apps/api/src/accounts).
use my_account_controller.Common.{
  ◌≡◌, refl, ap, Option-cases, arith, Text, length, ok, Result-cases, inl, inr, ==_yes,
}
use my_account_controller.Crypto.{CryptoService}
use my_account_controller.Crypto.Encoding.{Bytes, to_well_formed}
use my_account_controller.Database.{Prisma, Account}
use my_account_controller.Auth.KeyStore.{is_idle}
use my_account_controller.Auth.KeyStore.Laws.{lookup-touch}
use my_account_controller.Auth.Guards.{unlocked_guard}
use my_account_controller.Auth.Guards.Laws.{
  IsOpen, guard_admits, unlocked_guard_iff, unlocked_guard_frame,
}
use my_account_controller.Accounts.Service as Accounts
use my_account_controller.Accounts.Service.{AccountData}
use my_account_controller.Accounts.Service.Vault.{create-find_one}
use my_account_controller.Accounts.Controller as Vault
use my_account_controller.Server.{Environment}
use my_account_controller.Server.Reach.{Reach, Reach-KeysFit}
use my_account_controller.World.{World}

-- A session that the guard admitted is open still, in any later state with its keys and its time.
guard-IsOpen :
    (w : World) (user : Text) (key : Bytes) {v : World}
    → unlocked_guard w ≡ (ok (user, key), v)
    → IsOpen v user key
unfolding unlocked_guard is_idle
guard-IsOpen w user key {v} h =
    let (logged, flag, (e, found, fresh, same)) = (unlocked_guard_iff w user key).0 (v, h) in
    let id = w.session.id in
    (
      ground (arith, h, logged, flag),
      ground (arith, h, logged, flag),
      (
        record e { last_activity_at = w.now },
        ground (arith, h, lookup-touch id id w.now w.keys, found, fresh, ==_yes {a = id} refl),
        ground (arith, h),
        same,
      ),
    )

module _ (prisma : Prisma) (crypto : CryptoService) where
  find_one-db :
      (user id : Text) (key : Bytes) (w v : World) {r : Account × Text}
      → v.db ≡ w.db
      → Accounts.find_one prisma crypto user id key w ≡ (ok r, w)
      → Accounts.find_one prisma crypto user id key v ≡ (ok r, v)
  unfolding Accounts.find_one
  find_one-db user id key w v {r} same h =
      let rows = w.db.accounts in
      let equal : prisma.accounts.find_first (Accounts.owned user id) v.db.accounts
          ≡ prisma.accounts.find_first (Accounts.owned user id) rows =
        ap (λ db. prisma.accounts.find_first (Accounts.owned user id) db.accounts) same in
      elim (Option-cases (prisma.accounts.find_first (Accounts.owned user id) rows)) [
        | inl missing ↦ absurd (ground arith)
        | inr (a, found) ↦ elim (Option-cases (crypto.decrypt a.encrypted_password key)) [
          | inl failed ↦ absurd (ground arith)
          | inr (t, opened) ↦ ground (arith, equal)
        ]
      ]

  create-frame :
      (user : Text) (key : Bytes) (d : AccountData) (w : World)
      → let v = (Accounts.create prisma crypto user key d w).1 in
        (v.keys ≡ w.keys) × (v.session ≡ w.session) × (v.now ≡ w.now)
  unfolding Accounts.create
  create-frame user key d w = ground arith

-- In every state that the server reaches, a request that stores an account is followed by one that
-- reads it with the password that was given, but for lone surrogates.
pub Reach-create-find_one :
    (env : Environment) {w : World} (d : AccountData) {a : Account} {w' : World}
    → Reach env w
    → Vault.create env.prisma env.crypto d w ≡ (ok a, w')
    → (w'' : World) × (Vault.find_one env.prisma env.crypto a.id w'
        ≡ (ok (a, to_well_formed d.password), w''))
unfolding Vault.create Vault.find_one
Reach-create-find_one env {w} d {a} {w'} reached h =
    let prisma = env.prisma in
    let crypto = env.crypto in
    elim (Result-cases (unlocked_guard w)) [
      | inr (e, v, refused) ↦ absurd (ground (arith, refused))
      | inl ((user, key), v, admitted) ↦
          let (logged, flag, (e, found, fresh, same)) =
            (unlocked_guard_iff w user key).0 (v, admitted) in
          let fit : length key ≡ 32 =
            ground (arith, Reach-KeysFit env reached w.session.id e found) in
          let made : Accounts.create prisma crypto user key d v ≡ (ok a, w') =
            ground (arith, admitted) in
          let read = create-find_one prisma crypto user key v d fit made in
          let frame = create-frame prisma crypto user key d v in
          let (l, f, (e', there, live, one)) = guard-IsOpen w user key admitted in
          let o : IsOpen w' user key = (
            ground (arith, frame, made, l),
            ground (arith, frame, made, f),
            (e', ground (arith, frame, made, there), ground (arith, frame, made, live), one),
          ) in
          let (w2, again) = guard_admits w' user key o in
          let kept : w2.db ≡ w'.db = ground (arith, unlocked_guard_frame w', again) in
          let done = find_one-db prisma crypto user a.id key w' w2 kept read in
          (w2, ground (arith, again, done))
    ]
