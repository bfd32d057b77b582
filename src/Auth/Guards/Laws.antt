-- ===== src/Auth/Guards/Laws.antt =====
-- Whom `UnlockedGuard` admits (auth/guards/unlocked.guard.ts).
use my_account_controller.Common.{
  ℕ, ◌≡◌, true, false, some, Text, ok, err, given, arith, ◌↔◌, Option-cases, inl, inr, unauthorized,
  unlock_required,
}
use my_account_controller.Crypto.Encoding.{Bytes}
use my_account_controller.Auth.KeyStore
use my_account_controller.Auth.KeyStore.{UnlockEntry, lookup, is_idle}
use my_account_controller.Auth.KeyStore.Laws.{touch-key_of}
use my_account_controller.Auth.Guards.{unlocked_guard}
use my_account_controller.World.{World}

-- The session may read the vault of the user, with the key.
abbrev pub IsOpen : World → Text → Bytes → Type 0
IsOpen w user key =
    (given w.session.user_id ≡ some user)
    × (w.session.unlocked ≡ true)
    × ((e : UnlockEntry) × (lookup w.session.id w.keys ≡ some e)
        × (is_idle w.now e ≡ false)
        × (e.key ≡ key))

pub guard_admits :
    (w : World) (user : Text) (key : Bytes)
    → IsOpen w user key
    → (w' : World) × (unlocked_guard w ≡ (ok (user, key), w'))
unfolding unlocked_guard
guard_admits w user key (logged, flag, (e, found, fresh, same)) = (
  record w { keys = (KeyStore.touch w.session.id w.now w.keys).1 },
  ground (arith, touch-key_of w.session.id w.now w.keys),
)

guard_checks :
    (w : World) (user : Text) (key : Bytes)
    → ((w' : World) × (unlocked_guard w ≡ (ok (user, key), w')))
    → IsOpen w user key
unfolding unlocked_guard
guard_checks w user key (w', h) = elim (Option-cases (lookup w.session.id w.keys)) [
  | inl missing ↦ absurd (ground (arith, touch-key_of w.session.id w.now w.keys))
  | inr (e, found) ↦ (
    ground (arith, touch-key_of w.session.id w.now w.keys),
    ground (arith, touch-key_of w.session.id w.now w.keys),
    (
      e,
      found,
      ground (arith, touch-key_of w.session.id w.now w.keys),
      ground (arith, touch-key_of w.session.id w.now w.keys),
    ),
  )
]

-- The guard admits a session exactly when it is logged in, marked as unlocked, and its key is in
-- the store and has not been idle for too long; the handler gets that user and that key.
pub unlocked_guard_iff :
    (w : World) (user : Text) (key : Bytes)
    → ((w' : World) × (unlocked_guard w ≡ (ok (user, key), w'))) ↔ IsOpen w user key
unlocked_guard_iff w user key = (guard_checks w user key, guard_admits w user key)

-- The guard changes neither the database nor the rest of the server, but for the key store and
-- the session's mark.
pub unlocked_guard_frame :
    (w : World)
    → (unlocked_guard w).1 ≡ record w {
      keys = (unlocked_guard w).1.keys;
      session = record w.session { unlocked = (unlocked_guard w).1.session.unlocked };
    }
unfolding unlocked_guard
unlocked_guard_frame w = ground arith

-- A session that was refused for being locked is marked as locked, and is refused again at any
-- later time, whatever has become of the key store in between.
pub unlocked_guard_sticks :
    (w : World) {w' : World} (now : ℕ) (keys : KeyStore.Entries)
    → unlocked_guard w ≡ (err (unauthorized unlock_required), w')
    → (w'.session.unlocked ≡ false)
      × ((unlocked_guard (record w' { now = now; keys = keys })).0
          ≡ err (unauthorized unlock_required))
unfolding unlocked_guard
unlocked_guard_sticks w now keys h = ground arith
