-- ===== src/Auth/KeyStore.antt =====
-- auth/unlock-key-store.service.ts: the keys of the unlocked sessions, in the memory of the server.
-- `Date.now()` is an argument, in milliseconds. It is read in whole milliseconds, and a clock that
-- is set back makes the idle time negative, which the truncated difference 0 stands for.
pub mod Laws
pub mod Idle
pub mod Cells
use my_account_controller.Common.{
  ℕ, ◌-◌, ◌*◌, Bool, true, false, Option, none, some, List, [], ◌∷◌, Text, ◌==◌, ltb, if◌then◌else◌,
}
use my_account_controller.Crypto.Encoding.{Bytes}

pub record UnlockEntry : Type 0 where
  pub key : Bytes
  pub auto_lock_minutes : ℕ
  pub last_activity_at : ℕ

-- The `Map`, in the order of insertion.
abbrev pub Entries : Type 0
Entries = List (Text × UnlockEntry)

abbrev pub lookup : Text → Entries → Option UnlockEntry
lookup sid [] = none
lookup sid ((k, e) ∷ entries) = if k == sid then some e else lookup sid entries

abbrev pub insert : Text → UnlockEntry → Entries → Entries
insert sid e [] = (sid, e) ∷ []
insert sid e ((k, f) ∷ entries) =
    if k == sid then (k, e) ∷ entries else (k, f) ∷ insert sid e entries

abbrev pub erase : Text → Entries → Entries
erase sid [] = []
erase sid ((k, e) ∷ entries) = if k == sid then erase sid entries else (k, e) ∷ erase sid entries

unfoldable pub set : Text → Bytes → ℕ → ℕ → Entries → Entries
set sid key minutes now entries =
    insert sid (record { key = key; auto_lock_minutes = minutes; last_activity_at = now }) entries

-- Whether an entry has been idle for longer than its limit.
unfoldable pub is_idle : ℕ → UnlockEntry → Bool
is_idle now e = ltb (e.auto_lock_minutes * 60_000) (now - e.last_activity_at)

unfoldable pub touch : Text → ℕ → Entries → Option Bytes × Entries
touch sid now entries = elim (lookup sid entries) [
  | none ↦ (none, entries)
  | some e ↦
      if is_idle now e
      then (none, erase sid entries)
      else (some e.key, insert sid (record e { last_activity_at = now }) entries)
]

unfoldable pub get : Text → Entries → Option Bytes
get sid entries = elim (lookup sid entries) [ none ↦ none | some e ↦ some e.key ]

unfoldable pub update_auto_lock_minutes : Text → ℕ → Entries → Entries
update_auto_lock_minutes sid minutes entries = elim (lookup sid entries) [
  | none ↦ entries
  | some e ↦ insert sid (record e { auto_lock_minutes = minutes }) entries
]

unfoldable pub delete : Text → Entries → Entries
delete sid entries = erase sid entries
