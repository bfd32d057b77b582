-- ===== src/Auth/Guards.antt =====
-- auth/guards and auth/decorators: what a route demands of the session before its handler runs.
-- A guard gives the handler what the decorators CurrentUserId and EncryptionKey read afterwards.
pub mod Laws
use my_account_controller.Common.{
  ℕ, Bool, true, false, ◌||◌, not, Option, none, some, Text, given, is_some, unauthorized,
  login_required, unlock_required, or_throw, throw, pure, gets, ◌>>=◌, ◌>>◌, ok, if◌then◌else◌,
}
use my_account_controller.Crypto.Encoding.{Bytes}
use my_account_controller.Auth.Session.{Session}
use my_account_controller.Auth.KeyStore
use my_account_controller.World.{World, Action, change_session, change_keys}

-- `CurrentUserId`, on a route without a guard
unfoldable pub current_user_id : Action (Option Text)
current_user_id = gets (λ w. w.session.user_id)

-- `LoggedInGuard.canActivate`
unfoldable pub logged_in_guard : Action Text
logged_in_guard = do
  user_id ← gets (λ w. w.session.user_id)
  or_throw (given user_id) (unauthorized login_required)

-- `this.unlockKeyStore.touch(session.id)`
unfoldable pub touch_key : Action (Option Bytes)
touch_key w =
    let (key, keys) = KeyStore.touch w.session.id w.now w.keys in (ok key, record w { keys = keys })

unfoldable pub admit : Option Bytes → Action Bytes
admit key = do
  unlocked ← gets (λ w. w.session.unlocked)
  let refuse : Action Bytes =
      change_session (λ s. record s { unlocked = false }) >> throw (unauthorized unlock_required)
  elim key [ none ↦ refuse | some k ↦ if unlocked then pure k else refuse ]

-- `UnlockedGuard.canActivate`: the user, and the key that it leaves on the request
unfoldable pub unlocked_guard : Action (Text × Bytes)
unfolding touch_key admit
unlocked_guard = do
  user_id ← gets (λ w. w.session.user_id)
  user ← or_throw (given user_id) (unauthorized login_required)
  key ← touch_key
  k ← admit key
  pure (user, k)
