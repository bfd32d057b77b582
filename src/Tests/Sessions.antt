-- ===== src/Tests/Sessions.antt =====
-- Runs of the key store, the guard, the login and the unlocking.
use my_account_controller.Common.{
  ◌≤◌, ◌≡◌, ◌≢◌, ◌↔◌, ◌⊎◌, refl, arith, true, false, some, none, [], ◌∷◌, Text, codes, ok, err,
  Error, Memᴰ, Result, unauthorized, unlock_required, given, length, Text-discrete,
}
use my_account_controller.Database.{User}
use my_account_controller.Auth.Session.{GoogleProfile}
use my_account_controller.Auth.Google.{GoogleClient, exchange_code_for_profile}
use my_account_controller.Auth.KeyStore
use my_account_controller.Auth.KeyStore.{
  Entries, lookup, set, touch, get, update_auto_lock_minutes, delete,
}
use my_account_controller.Auth.KeyStore.Idle.{AllAre, touches, touches-Active, touches_idle}
use my_account_controller.Auth.Guards.{unlocked_guard}
use my_account_controller.Auth.Guards.Laws.{IsOpen, unlocked_guard_iff, unlocked_guard_sticks}
use my_account_controller.Auth.Service.{
  handle_google_callback, setup_master_password, unlock, CallbackResult, logged_in,
  needs_master_password_setup, state_differs,
}
use my_account_controller.Auth.Service.Setup.{
  setup_master_password-ok, unlock_lem, Unlocks, handle_google_callback-ok,
}
use my_account_controller.Tests.Primitives.{crypto}
use my_account_controller.Tests.Server.{client, alice, password, world, visitor, alice_key, entry}
use my_account_controller.World.{World}

abbrev sid : Text
sid = codes "sid"

abbrev other_sid : Text
other_sid = codes "other"

touches-Active_example :
    AllAre (some alice_key) (touches sid (1_000 ∷ 901_000 ∷ 1_801_000 ∷ []) world.keys)
unfolding Text-discrete native.Mathlib.Decide.ℕ_discrete
touches-Active_example =
    touches-Active sid (1_000 ∷ 901_000 ∷ 1_801_000 ∷ []) world.keys entry refl
      (omega arith, (omega arith, (omega arith, tt)))

touches_idle_example : AllAre none (touches sid (901_001 ∷ 901_002 ∷ []) world.keys)
unfolding Text-discrete native.Mathlib.Decide.ℕ_discrete
touches_idle_example = touches_idle sid 901_001 (901_002 ∷ []) world.keys entry refl (omega arith)

unlocked_guard_iff_example :
    ((w' : World) × (unlocked_guard world ≡ (ok (alice, alice_key), w')))
    ↔ IsOpen world alice alice_key
unlocked_guard_iff_example = unlocked_guard_iff world alice alice_key

-- The same session after its key has gone.
abbrev expired : World
expired = record world { keys = [] }

unlocked_guard_sticks_example :
    ((unlocked_guard expired).1.session.unlocked ≡ false)
    × ((unlocked_guard (record (unlocked_guard expired).1 { now = 9_000; keys = world.keys })).0
        ≡ err (unauthorized unlock_required))
unfolding unlocked_guard touch
unlocked_guard_sticks_example = unlocked_guard_sticks expired 9_000 world.keys refl

-- Google, which answers with one profile.
abbrev google : Text → GoogleClient
google sub = record {
  hex_state = λ n. n ∷ [];
  generate_auth_url = λ state. state;
  get_token = λ code. some (some code);
  verify_id_token = λ token. some (some (record { sub = some sub; email = some (codes "a@b.c") }));
}

abbrev profile : Text → GoogleProfile
profile sub = record { sub = sub; email = codes "a@b.c" }

abbrev callback : World → Result CallbackResult × World
callback = handle_google_callback client (google (codes "sub")) (codes "code") (some (codes "st"))

callback_ok : callback visitor ≡ (ok logged_in, (callback visitor).1)
unfolding handle_google_callback state_differs Text-discrete native.Mathlib.Decide.ℕ_discrete
    exchange_code_for_profile
callback_ok = refl

handle_google_callback-ok_example :
    (p : GoogleProfile) × (exchange_code_for_profile (google (codes "sub")) (codes "code") ≡ ok p)
    × (given (some (codes "st")) ≡ visitor.session.oauth_state)
    × ((callback visitor).1.session.oauth_state ≡ none)
    × ((callback visitor).1.db ≡ visitor.db)
    × ((callback visitor).1.keys ≡ visitor.keys)
    × (((logged_in ≡ logged_in)
          × ((u : User) × Memᴰ u visitor.db.users
              × (u.google_sub_id ≡ p.sub)
              × ((callback visitor).1.session.user_id ≡ some u.id)
              × ((callback visitor).1.session.unlocked ≡ false)))
        ⊎ ((logged_in ≡ needs_master_password_setup p.email)
            × ((u : User) → Memᴰ u visitor.db.users → u.google_sub_id ≢ p.sub)
            × ((callback visitor).1.session.pending_google ≡ some p)
            × ((callback visitor).1.session.user_id ≡ visitor.session.user_id)))
handle_google_callback-ok_example =
    handle_google_callback-ok client (google (codes "sub")) (codes "code") (some (codes "st"))
      visitor callback_ok

unlock_lem_example :
    ((w' : World)
      → unlock client crypto alice password expired ≡ (ok tt, w')
      → Unlocks client crypto password alice expired w')
    × ((e : Error) (w' : World)
        → unlock client crypto alice password expired ≡ (err e, w')
        → w' ≡ expired)
unlock_lem_example = unlock_lem client crypto password alice expired

-- A visitor whose profile is new.
abbrev newcomer : World
newcomer = record visitor {
  session = record visitor.session { pending_google = some (profile (codes "new")) };
}

abbrev setup : World → Result (Text × Text) × World
setup = setup_master_password client crypto password

setup_ok : setup newcomer ≡ (ok ((1_002 ∷ []), codes "a@b.c"), (setup newcomer).1)
unfolding setup_master_password my_account_controller.Auth.Service.is_too_short
    my_account_controller.Database.user_clash Text-discrete
    my_account_controller.Auth.Service.new_user native.Mathlib.Decide.ℕ_discrete
setup_ok = refl

setup_master_password-ok_example :
    (pending : GoogleProfile) × (u : User) × (newcomer.session.pending_google ≡ some pending)
    × (given newcomer.session.user_id ≡ none)
    × (8 ≤ length password)
    × Memᴰ u (setup newcomer).1.db.users
    × (u.google_sub_id ≡ pending.sub)
    × (crypto.verify_master_password password u.master_password_hash ≡ true)
    × ((setup newcomer).1.session
        ≡ record newcomer.session { pending_google = none; user_id = some u.id; unlocked = true })
    × (KeyStore.get (setup newcomer).1.session.id (setup newcomer).1.keys
        ≡ some (crypto.derive_encryption_key password u.master_kdf_salt))
    × ((q : User) → Memᴰ q newcomer.db.users → Memᴰ q (setup newcomer).1.db.users)
setup_master_password-ok_example = setup_master_password-ok client crypto password newcomer setup_ok
