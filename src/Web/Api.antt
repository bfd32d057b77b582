-- ===== src/Web/Api.antt =====
-- apps/web/src/lib/api.ts: a request to the server, and the messages that the pages show.
use my_account_controller.Common.{
  ℕ, ◌≤◌, ◌≡◌, arith, Bool, true, ◌&&◌, Option, none, some, Text, leb, ltb, given, Error, Result,
  ok, err, api, if◌then◌else◌,
}

-- What `fetch` gives: the status, whether the content type is JSON, and of the parsed body the
-- value that a caller wants and the field `message`.
pub record Response (A : Type 0) : Type 0 where
  pub status : ℕ
  pub is_json : Bool
  pub value : Option A
  pub message : Option Text

-- `res.ok`
abbrev pub is_ok : ℕ → Bool
is_ok status = leb 200 status && ltb status 300

module _ {A : Type 0} where
  -- `isJson ? await res.json() : undefined`
  unfoldable pub body_of : Response A → Option A
  body_of r = if r.is_json then r.value else none

  unfoldable pub message_of : Response A → Option Text
  message_of r = if r.is_json then r.message else none

  unfoldable pub api_fetch : Response A → Result (Option A)
  unfolding body_of message_of
  api_fetch r = if is_ok r.status then ok (body_of r) else err (api r.status (message_of r))

-- `getErrorMessage`: the message of what was thrown, `none` for what is no `Error`, unless empty
unfoldable pub get_error_message : Option Text → Text → Text
get_error_message thrown fallback = elim (given thrown) [ none ↦ fallback | some m ↦ m ]

-- How the framework of the server answers: a result as JSON with a status of success, an error
-- with a status from 400 on.
pub record Http : Type 1 where
  pub answer : (A : Type 0) → Result A → Response A
  pub answer-ok :
      (A : Type 0) (a : A)
      → (is_ok (answer A (ok a)).status ≡ true)
        × ((answer A (ok a)).is_json ≡ true)
        × ((answer A (ok a)).value ≡ some a)
  pub answer-err : (A : Type 0) (e : Error) → 400 ≤ (answer A (err e)).status

module _ (http : Http) {A : Type 0} where
  -- What a caller sees of a route's result.
  unfoldable pub received : Result A → Result (Option A)
  received r = api_fetch (http.answer A r)

  pub received-ok : (a : A) → received (ok a) ≡ ok (some a)
  unfolding received api_fetch body_of
  received-ok a = ground (arith, http.answer-ok A a)

  pub received-err :
      (e : Error)
      → (status : ℕ) × (message : Option Text) × (received (err e) ≡ err (api status message))
        × (400 ≤ status)
  unfolding received api_fetch
  received-err e = (
    (http.answer A (err e)).status,
    message_of (http.answer A (err e)),
    ground (arith, http.answer-err A e),
    http.answer-err A e,
  )
