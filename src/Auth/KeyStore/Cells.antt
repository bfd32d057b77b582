-- ===== src/Auth/KeyStore/Cells.antt =====
-- The key store (unlock-key-store.service.ts) as one cell per session: what the store promises to
-- a session, whatever the others do.
use my_account_controller.Common.{
  ℕ, ◌≡◌, refl, arith, Option, none, some, List, [], ◌∷◌, Text, ◌==◌, Option-cases, Bool-cases, inl,
  inr, if◌then◌else◌,
}
use my_account_controller.Crypto.Encoding.{Bytes}
use my_account_controller.Auth.KeyStore.{
  UnlockEntry, Entries, lookup, is_idle, set, touch, update_auto_lock_minutes, delete,
}
use my_account_controller.Auth.KeyStore.Laws.{
  lookup-insert, lookup-erase, lookup-touch, touch-key_of,
}

-- A call for one session: `set`, `touch`, `updateAutoLockMinutes` or `delete`, the first two at a
-- time.
pub data Event : Type 0 where
  setting : Bytes → ℕ → ℕ → Event
  touching : ℕ → Event
  limiting : ℕ → Event
  deleting : Event

-- What a session sees of its own: locked, or unlocked with a key, a limit and the last activity.
abbrev pub Cell : Type 0
Cell = Option UnlockEntry

-- The answer of a call, none if it has none, and the cell after it.
unfoldable pub cell_step : Event → Cell → Option Bytes × Cell
cell_step (setting key minutes now) c =
    (none, some (record { key = key; auto_lock_minutes = minutes; last_activity_at = now }))
cell_step (touching now) none = (none, none)
cell_step (touching now) (some e) =
    if is_idle now e then (none, none) else (some e.key, some (record e { last_activity_at = now }))
cell_step (limiting minutes) none = (none, none)
cell_step (limiting minutes) (some e) = (none, some (record e { auto_lock_minutes = minutes }))
cell_step deleting c = (none, none)

unfoldable pub cell_run : List Event → Cell → List (Option Bytes)
cell_run [] c = []
cell_run (e ∷ es) c = let (answer, c') = cell_step e c in answer ∷ cell_run es c'

-- The same call on the store of all sessions.
unfoldable pub call : Text → Event → Entries → Option Bytes × Entries
call sid (setting key minutes now) entries = (none, set sid key minutes now entries)
call sid (touching now) entries = touch sid now entries
call sid (limiting minutes) entries = (none, update_auto_lock_minutes sid minutes entries)
call sid deleting entries = (none, delete sid entries)

-- The answers to calls of any sessions, in their order.
unfoldable pub run : List (Text × Event) → Entries → List (Text × Option Bytes)
run [] entries = []
run ((sid, e) ∷ calls) entries =
    let (answer, entries') = call sid e entries in (sid, answer) ∷ run calls entries'

-- What is of one session in a list with sessions.
unfoldable pub of_session : {A : Type 0} → Text → List (Text × A) → List A
of_session sid [] = []
of_session sid ((k, a) ∷ rest) =
    let others = of_session sid rest in if k == sid then a ∷ others else others

lookup-call :
    (sid other : Text) (e : Event) (entries : Entries)
    → lookup other (call sid e entries).1
      ≡ (if sid == other then (cell_step e (lookup sid entries)).1 else lookup other entries)
unfolding call cell_step set update_auto_lock_minutes delete
lookup-call sid other (setting key minutes now) entries =
    lookup-insert sid other
      (record { key = key; auto_lock_minutes = minutes; last_activity_at = now }) entries
lookup-call sid other (touching now) entries = elim (Option-cases (lookup sid entries)) [
  | inl missing ↦ ground (arith, lookup-touch sid other now entries)
  | inr (f, found) ↦ ground (arith, lookup-touch sid other now entries)
]
lookup-call sid other (limiting minutes) entries = elim (Option-cases (lookup sid entries)) [
  | inl missing ↦ ground arith
  | inr (f, found) ↦
      ground (arith, lookup-insert sid other (record f { auto_lock_minutes = minutes }) entries)
]
lookup-call sid other deleting entries = ground (arith, lookup-erase sid other entries)

answer-call :
    (sid : Text) (e : Event) (entries : Entries)
    → (call sid e entries).0 ≡ (cell_step e (lookup sid entries)).0
unfolding call cell_step
answer-call sid (setting key minutes now) entries = refl
answer-call sid (touching now) entries = elim (Option-cases (lookup sid entries)) [
  | inl missing ↦ ground (arith, touch-key_of sid now entries)
  | inr (f, found) ↦ ground (arith, touch-key_of sid now entries)
]
answer-call sid (limiting minutes) entries = elim (Option-cases (lookup sid entries)) [
  | inl missing ↦ ground arith
  | inr (f, found) ↦ ground arith
]
answer-call sid deleting entries = refl

-- In any interleaving of calls, the answers that a session gets are those of a cell of its own, on
-- which only its calls run, from what the store holds for it.
pub run-cell_run :
    (sid : Text) (calls : List (Text × Event)) (entries : Entries)
    → of_session sid (run calls entries) ≡ cell_run (of_session sid calls) (lookup sid entries)
unfolding run cell_run of_session
run-cell_run sid [] entries = refl
run-cell_run sid ((k, e) ∷ calls) entries = elim (Bool-cases (k == sid)) [
  | inl mine ↦ ground (
    arith,
    run-cell_run sid calls (call k e entries).1,
    lookup-call k sid e entries,
    answer-call k e entries,
  )
  | inr other ↦
      ground (arith, run-cell_run sid calls (call k e entries).1, lookup-call k sid e entries)
]
