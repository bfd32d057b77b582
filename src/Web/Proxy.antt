-- ===== src/Web/Proxy.antt =====
-- apps/web/src/proxy.ts: where a page that needs a session is sent.
use my_account_controller.Common.{
  ◌≡◌, ◌↔◌, refl, arith, Bool, true, false, Option, none, some, Text, given, Result, ok, err,
  if◌then◌else◌, Option-cases, inl, inr, [], ◌∷◌, ◌⊎◌, Error, ◌∙◌, ap,
}
use my_account_controller.Crypto.Encoding.{Bytes}
use my_account_controller.Auth.KeyStore.{lookup}
use my_account_controller.Auth.KeyStore.Laws.{touch-key_of}
use my_account_controller.Auth.Guards.{logged_in_guard}
use my_account_controller.Auth.Guards.Laws.{IsOpen}
use my_account_controller.Auth.Service.{check_still_unlocked}
use my_account_controller.Auth.Controller.{me}
use my_account_controller.World.{World}
use my_account_controller.Web.Api.{Response, Http, is_ok}

pub data Destination : Type 0 where
  login unlock_step next : Destination

-- `/auth/me` answers with the user and the mark.
abbrev pub Me : Type 0
Me = Text × Bool

-- `if (res.ok) session = await res.json()`, under a `try`
unfoldable pub session_of : Option (Response Me) → Option Me
session_of none = none
session_of (some r) = if is_ok r.status then (if r.is_json then r.value else none) else none

unfoldable pub destination_of : Option Me → Destination
destination_of none = login
destination_of (some (user_id, unlocked)) = elim (given (some user_id)) [
  | none ↦ login
  | some u ↦ if unlocked then next else unlock_step
]

-- The answer of the server, or none if it cannot be reached.
unfoldable pub proxy : Option (Response Me) → Destination
unfolding session_of destination_of
proxy answer = destination_of (session_of answer)

proxy-ok : (http : Http) (m : Me) → proxy (some (http.answer Me (ok m))) ≡ destination_of (some m)
unfolding proxy
proxy-ok http m = ground (arith, http.answer-ok Me m)

proxy-err : (http : Http) (e : Error) → proxy (some (http.answer Me (err e))) ≡ login
unfolding proxy
proxy-err http e = ground (arith, http.answer-err Me e)

-- The server's answer in an open session.
me_open : (w : World) (user : Text) (key : Bytes) → IsOpen w user key → (me w).0 ≡ ok (user, true)
unfolding me logged_in_guard check_still_unlocked
me_open w user key (logged, flag, (e, there, fresh, same)) =
    ground (arith, touch-key_of w.session.id w.now w.keys)

-- A session whose answer lets the page through is open.
me-IsOpen :
    (w : World) (user : Text) → (me w).0 ≡ ok (user, true) → (key : Bytes) × IsOpen w user key
unfolding me logged_in_guard check_still_unlocked
me-IsOpen w user h = elim (Option-cases (lookup w.session.id w.keys)) [
  | inl missing ↦ absurd (ground (arith, touch-key_of w.session.id w.now w.keys))
  | inr (e, there) ↦ (
    e.key,
    (
      ground (arith, touch-key_of w.session.id w.now w.keys),
      ground (arith, touch-key_of w.session.id w.now w.keys),
      (e, there, ground (arith, touch-key_of w.session.id w.now w.keys), refl),
    ),
  )
]

next_of : (m : Me) → destination_of (some m) ≡ next → m ≡ (m.0, true)
unfolding destination_of
next_of ([], b) h = cc
next_of (c ∷ t, true) h = refl
next_of (c ∷ t, false) h = cc

Result_split : (r : Result Me) → ((m : Me) × (r ≡ ok m)) ⊎ ((e : Error) × (r ≡ err e))
Result_split (ok m) = inl (m, refl)
Result_split (err e) = inr (e, refl)

given-some : (t : Option Text) {u : Text} → given t ≡ some u → given (some u) ≡ some u
given-some none h = absurd (ground arith)
given-some (some []) h = absurd (ground arith)
given-some (some (c ∷ t)) h = ground arith

-- A page that the proxy covers is shown exactly if the server's guard would admit the session.
pub proxy_iff :
    (http : Http) (w : World)
    → (proxy (some (http.answer Me (me w).0)) ≡ next)
      ↔ ((user : Text) × (key : Bytes) × IsOpen w user key)
unfolding destination_of
proxy_iff http w = (
  λ h. elim (Result_split (me w).0) [
    | inl (m, e) ↦
        let shown : destination_of (some m) ≡ next = ground (arith, proxy-ok http m) in
        let (key, o) = me-IsOpen w m.0 (e ∙ ap ok (next_of m shown)) in (m.0, key, o)
    | inr (x, e) ↦ absurd (ground (arith, proxy-err http x))
  ],
  λ s.
      let (user, key, o) = s in
      let e : (me w).0 ≡ ok (user, true) = me_open w user key o in
      let u : given (some user) ≡ some user = given-some w.session.user_id o.0 in
      rw e (proxy-ok http (user, true) ∙ (ground arith)),
)
