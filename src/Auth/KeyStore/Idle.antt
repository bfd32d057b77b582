-- ===== src/Auth/KeyStore/Idle.antt =====
-- The idle timeout of the key store (unlock-key-store.service.ts), over any number of requests of
-- one session while the store serves the others.
use my_account_controller.Common.{
  ℕ, ◌-◌, ◌*◌, ◌≤◌, ◌<◌, ◌≡◌, Option, none, some, List, [], ◌∷◌, Text, arith,
}
use my_account_controller.Crypto.Encoding.{Bytes}
use my_account_controller.Auth.KeyStore.{UnlockEntry, Entries, lookup, is_idle, touch}
use my_account_controller.Auth.KeyStore.Laws.{lookup-touch, touch-key_of}

-- The answers to a session's touches at the given times.
unfoldable pub touches : Text → List ℕ → Entries → List (Option Bytes)
touches sid [] entries = []
touches sid (t ∷ ts) entries =
    let (answer, entries') = touch sid t entries in answer ∷ touches sid ts entries'

-- Each time comes at most `limit` after the one before it.
abbrev pub Active : ℕ → ℕ → List ℕ → Type 0
Active limit last [] = Unit
Active limit last (t ∷ ts) = (t - last ≤ limit) × Active limit t ts

abbrev pub AllAre {ℓ} : {A : Type ℓ} → A → List A → Type ℓ
AllAre a [] = Unit
AllAre a (x ∷ xs) = (x ≡ a) × AllAre a xs

-- While no pause is longer than the limit, every touch gives the session's key.
pub touches-Active :
    (sid : Text) (ts : List ℕ) (entries : Entries) (e : UnlockEntry)
    → lookup sid entries ≡ some e
    → Active (e.auto_lock_minutes * 60_000) e.last_activity_at ts
    → AllAre (some e.key) (touches sid ts entries)
unfolding touches is_idle
touches-Active sid [] entries e found active = tt
touches-Active sid (t ∷ ts) entries e found (soon, later) = (
  ground (arith, touch-key_of sid t entries),
  touches-Active sid ts (touch sid t entries).1 (record e { last_activity_at = t })
      (ground (arith, lookup-touch sid sid t entries)) later,
)

-- A session without an entry has no key at any time.
pub touches_missing :
    (sid : Text) (ts : List ℕ) (entries : Entries)
    → lookup sid entries ≡ none
    → AllAre none (touches sid ts entries)
unfolding touches
touches_missing sid [] entries missing = tt
touches_missing sid (t ∷ ts) entries missing = (
  ground (arith, touch-key_of sid t entries),
  touches_missing sid ts (touch sid t entries).1 (ground (arith, lookup-touch sid sid t entries)),
)

-- After a pause longer than the limit no touch gives a key again, however often it is repeated.
pub touches_idle :
    (sid : Text) (t : ℕ) (ts : List ℕ) (entries : Entries) (e : UnlockEntry)
    → lookup sid entries ≡ some e
    → e.auto_lock_minutes * 60_000 < t - e.last_activity_at
    → AllAre none (touches sid (t ∷ ts) entries)
unfolding touches is_idle
touches_idle sid t ts entries e found idle = (
  ground (arith, touch-key_of sid t entries),
  touches_missing sid ts (touch sid t entries).1 (ground (arith, lookup-touch sid sid t entries)),
)
