-- ===== src/Web/Navigation.antt =====
-- The frame of the pages, apps/web/src/app/(app)/layout.tsx: locking and logging out. Where the
-- browser goes afterwards is a page that asks the server nothing.
use my_account_controller.Common.{◌≢◌, arith, some, Text, given, Option-cases, inl, inr}
use my_account_controller.Crypto.Encoding.{Bytes}
use my_account_controller.Auth.Guards.{logged_in_guard}
use my_account_controller.Auth.Guards.Laws.{IsOpen}
use my_account_controller.Auth.Service
use my_account_controller.Auth.Controller as Routes
use my_account_controller.World.{World}
use my_account_controller.Web.Api.{Http}
use my_account_controller.Web.Browser.{Browser, Browsing, request}
use my_account_controller.Web.Proxy.{Me, Destination, login, unlock_step, next, proxy, proxy_iff}

-- `await apiFetch(...).catch(() => {})`, and the page that follows
abbrev regardless : Browsing (Unit {0}) → Destination → Browser → Destination × Browser
regardless m page b = let (r, b') = m b in (page, b')

module _ (http : Http) where
  unfoldable pub handle_lock : Browser → Destination × Browser
  handle_lock = regardless (request http {A = Unit {0}} Routes.lock) unlock_step

  unfoldable pub handle_logout : Browser → Destination × Browser
  handle_logout = regardless (request http {A = Unit {0}} Routes.logout) login

  -- What the browser shows for a page that the proxy covers.
  abbrev pub shown : Browser → Destination
  shown b = proxy (some (http.answer Me (Routes.me b.server).0))

lock-shut : (w : World) (user : Text) (key : Bytes) → ¬ (IsOpen (Routes.lock w).1 user key)
unfolding Routes.lock logged_in_guard Service.lock
lock-shut w user key (logged, flag, entry) = elim (Option-cases (given w.session.user_id)) [
  | inl nobody ↦ absurd (ground (arith, logged))
  | inr (u, there) ↦ absurd (ground (arith, flag))
]

logout-shut : (w : World) (user : Text) (key : Bytes) → ¬ (IsOpen (Routes.logout w).1 user key)
unfolding Routes.logout Service.logout
logout-shut w user key (logged, flag, entry) = absurd (ground (arith, logged))

-- After locking and after logging out, whatever the answer of the server was, no page that the proxy
-- covers is shown to the session.
pub handle_lock-shut :
    (http : Http) (b : Browser)
    → (shown http (handle_lock http b).1 ≢ next) × (shown http (handle_logout http b).1 ≢ next)
unfolding handle_lock handle_logout request
handle_lock-shut http b = (
  λ h.
      let (user, key, o) = (proxy_iff http (Routes.lock b.server).1).0 h in
      lock-shut b.server user key o,
  λ h.
      let (user, key, o) = (proxy_iff http (Routes.logout b.server).1).0 h in
      logout-shut b.server user key o,
)
