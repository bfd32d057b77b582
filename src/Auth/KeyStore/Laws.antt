-- ===== src/Auth/KeyStore/Laws.antt =====
-- What can be read from the key store after each of its operations (unlock-key-store.service.ts).
use my_account_controller.Common.{
  ℕ, ◌≡◌, ◌≢◌, refl, Option, none, some, [], ◌∷◌, Text, ◌==◌, if◌then◌else◌, arith, Option-cases,
  inl, inr,
}
use my_account_controller.Crypto.Encoding.{Bytes}
use my_account_controller.Auth.KeyStore.{
  UnlockEntry, Entries, lookup, insert, erase, set, is_idle, touch, get, update_auto_lock_minutes,
  delete,
}

pub lookup-insert :
    (sid other : Text) (e : UnlockEntry) (entries : Entries)
    → lookup other (insert sid e entries) ≡ (if sid == other then some e else lookup other entries)
lookup-insert sid other e [] = refl
lookup-insert sid other e ((k, f) ∷ entries) = ground (arith, lookup-insert sid other e entries)

pub lookup-erase :
    (sid other : Text) (entries : Entries)
    → lookup other (erase sid entries) ≡ (if sid == other then none else lookup other entries)
lookup-erase sid other [] = ground arith
lookup-erase sid other ((k, f) ∷ entries) = ground (arith, lookup-erase sid other entries)

-- The entry of a session after a touch: gone if it was idle, and stamped otherwise.
abbrev pub touched : ℕ → Option UnlockEntry → Option UnlockEntry
touched now none = none
touched now (some e) = if is_idle now e then none else some (record e { last_activity_at = now })

abbrev pub key_of : Option UnlockEntry → Option Bytes
key_of none = none
key_of (some e) = some e.key

-- What a touch leaves for a later read of any session.
pub lookup-touch :
    (sid other : Text) (now : ℕ) (entries : Entries)
    → lookup other (touch sid now entries).1
      ≡ (if sid == other then touched now (lookup sid entries) else lookup other entries)
unfolding touch
lookup-touch sid other now entries = elim (Option-cases (lookup sid entries)) [
  | inl missing ↦ ground arith
  | inr (e, found) ↦ ground (
    arith,
    lookup-erase sid other entries,
    lookup-insert sid other (record e { last_activity_at = now }) entries,
  )
]

-- The result of a touch, from the session's entry alone.
pub touch-key_of :
    (sid : Text) (now : ℕ) (entries : Entries)
    → (touch sid now entries).0 ≡ key_of (touched now (lookup sid entries))
unfolding touch
touch-key_of sid now entries = ground arith

-- No operation for one session changes the key that another session has.
get_other :
    (sid other : Text) (key : Bytes) (minutes now : ℕ) (entries : Entries)
    → sid ≢ other
    → (get other (set sid key minutes now entries) ≡ get other entries)
      × (get other (touch sid now entries).1 ≡ get other entries)
      × (get other (update_auto_lock_minutes sid minutes entries) ≡ get other entries)
      × (get other (delete sid entries) ≡ get other entries)
unfolding get set update_auto_lock_minutes delete
get_other sid other key minutes now entries h = (
  ground (
    arith,
    lookup-insert sid other
        (record { key = key; auto_lock_minutes = minutes; last_activity_at = now }) entries,
  ),
  ground (arith, lookup-touch sid other now entries),
  elim (Option-cases (lookup sid entries)) [
    | inl missing ↦ ground arith
    | inr (e, found) ↦
        ground (arith, lookup-insert sid other (record e { auto_lock_minutes = minutes }) entries)
  ],
  ground (arith, lookup-erase sid other entries),
)
