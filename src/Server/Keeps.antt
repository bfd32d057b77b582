-- ===== src/Server/Keeps.antt =====
-- Actions that leave the keys of the server long enough for the cipher, whether they end with a
-- result or an exception: the rules for the steps that the handlers are made of.
use my_account_controller.Common.{
  ℕ, ◌≡◌, some, Text, Result, ok, err, ◌>>=◌, length, inl, inr, arith, sym, subst, Option-cases,
}
use my_account_controller.Crypto.Encoding.{Bytes}
use my_account_controller.Auth.KeyStore.{
  UnlockEntry, Entries, lookup, set, touch, update_auto_lock_minutes, delete,
}
use my_account_controller.Auth.KeyStore.Laws.{lookup-insert, lookup-erase, lookup-touch}
use my_account_controller.Auth.Guards.{unlocked_guard, logged_in_guard}
use my_account_controller.World.{World, Action}

-- Every key has the 32 bytes that AES-256 takes.
abbrev pub KeysFit : Entries → Type 0
KeysFit entries = (sid : Text) (e : UnlockEntry) → lookup sid entries ≡ some e → length e.key ≡ 32

pub set-KeysFit :
    (sid : Text) (key : Bytes) (minutes now : ℕ) (entries : Entries)
    → length key ≡ 32
    → KeysFit entries
    → KeysFit (set sid key minutes now entries)
unfolding set
set-KeysFit sid key minutes now entries fits v other e h = ground (
  arith,
  lookup-insert sid other
      (record { key = key; auto_lock_minutes = minutes; last_activity_at = now }) entries,
  v other e,
)

pub touch-KeysFit :
    (sid : Text) (now : ℕ) (entries : Entries) → KeysFit entries → KeysFit (touch sid now entries).1
touch-KeysFit sid now entries v other e h = elim (Option-cases (lookup sid entries)) [
  | inl missing ↦ ground (arith, lookup-touch sid other now entries, v other e)
  | inr (f, found) ↦ ground (arith, lookup-touch sid other now entries, v other e, v sid f found)
]

pub minutes-KeysFit :
    (sid : Text) (minutes : ℕ) (entries : Entries)
    → KeysFit entries
    → KeysFit (update_auto_lock_minutes sid minutes entries)
unfolding update_auto_lock_minutes
minutes-KeysFit sid minutes entries v other e h = elim (Option-cases (lookup sid entries)) [
  | inl missing ↦ ground (arith, v other e)
  | inr (f, found) ↦ ground (
    arith,
    lookup-insert sid other (record f { auto_lock_minutes = minutes }) entries,
    v other e,
    v sid f found,
  )
]

pub delete-KeysFit :
    (sid : Text) (entries : Entries) → KeysFit entries → KeysFit (delete sid entries)
unfolding delete
delete-KeysFit sid entries v other e h = ground (arith, lookup-erase sid other entries, v other e)

-- The action leaves long keys behind if it found such.
pub record Keeps {A : Type 0} (m : Action A) : Type 0 where
  pub at : (w : World) → KeysFit w.keys → KeysFit (m w).1.keys

module _ {A : Type 0} where
  pub same_keys : (m : Action A) → ((w : World) → (m w).1.keys ≡ w.keys) → Keeps m
  same_keys m same = record { at = λ w v. subst KeysFit (sym (same w)) v }

module _ {A B : Type 0} where
  bound :
      (f : A → Action B) (r : Result A × World)
      → ((a : A) → Keeps (f a))
      → KeysFit r.1.keys
      → KeysFit (◌>>=◌ {S = World} {A = A} {B = B} (λ w. r) f r.1).1.keys
  bound f (ok a, t) k v = (k a).at t v
  bound f (err e, t) k v = v

  pub Keeps->>= :
      (m : Action A) (f : A → Action B) → Keeps m → ((a : A) → Keeps (f a)) → Keeps (m >>= f)
  Keeps->>= m f h k = record { at = λ w v. bound f (m w) k (h.at w v) }

logged_in-keys : (w : World) → (logged_in_guard w).1.keys ≡ w.keys
unfolding logged_in_guard
logged_in-keys w = ground arith

unlocked_keys : (w : World) → KeysFit w.keys → KeysFit (unlocked_guard w).1.keys
unfolding unlocked_guard
unlocked_keys w v sid e h = ground (arith, v sid e, touch-KeysFit w.session.id w.now w.keys v sid e)

-- A handler behind one of the guards.
pub unlocked_route :
    {B : Type 0} (f : Text × Bytes → Action B)
    → ((u : Text × Bytes) → Keeps (f u))
    → Keeps (unlocked_guard >>= f)
unlocked_route f k = Keeps->>= unlocked_guard f (record { at = unlocked_keys }) k

pub logged_in_route :
    {B : Type 0} (f : Text → Action B) → ((u : Text) → Keeps (f u)) → Keeps (logged_in_guard >>= f)
logged_in_route f k = Keeps->>= logged_in_guard f (same_keys logged_in_guard logged_in-keys) k
