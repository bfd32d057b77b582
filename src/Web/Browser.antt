-- ===== src/Web/Browser.antt =====
-- A browser and the server that it talks to: a request runs the server's route on its state, with
-- the cookie of the session. A database that cannot be opened rejects every call on it.
use my_account_controller.Common.{
  ℕ, ◌+◌, Option, none, some, List, Text, Exec, Result, ok, err, Error, remote, or_throw, gets,
  pure, ◌>>=◌,
}
use my_account_controller.World.{World, Action}
use my_account_controller.Web.Api.{Http, received}
use my_account_controller.Web.Storage.{WrappedMasterPassword, ObjectStore}

pub record Browser : Type 0 where
  pub server : World
  pub stored : Option (List WrappedMasterPassword)
  pub draws : ℕ

abbrev pub Browsing : Type 0 → Type 0
Browsing A = Exec Browser A

abbrev pub draw_value : Browsing ℕ
draw_value b = (ok b.draws, record b { draws = b.draws + 1 })

-- The body of the answer as its caller reads it: reading a field of `undefined` throws.
abbrev pub demand : {A : Type 0} → Result (Option A) → Result A
demand (ok none) = err remote
demand (ok (some a)) = ok a
demand (err e) = err e

-- `apiFetch` of a route
unfoldable pub request : Http → {A : Type 0} → Action A → Browsing A
request http {A} route b =
    let (r, w) = route b.server in (demand (received http {A = A} r), record b { server = w })

-- `try { ... } catch`, on a page or a section of it and the browser
abbrev pub attempt :
    {P A : Type 0}
    → Browsing A
    → (A → P × Browser → P × Browser)
    → (Error → P × Browser → P × Browser)
    → P × Browser
    → P × Browser
attempt m done failed (p, b) =
    let (r, b') = m b in elim r [ ok a ↦ done a (p, b') | err e ↦ failed e (p, b') ]

module _ (store : ObjectStore) where
  -- `openDb`
  unfoldable pub open_db : Browsing (List WrappedMasterPassword)
  open_db = do rows ← gets (λ b. b.stored); or_throw rows remote

  unfoldable pub save_wrapped_master_password : WrappedMasterPassword → Browsing (Unit {0})
  unfolding open_db
  save_wrapped_master_password entry = do
    rows ← open_db
    rows' ← or_throw (store.put entry rows) remote
    λ b. (ok tt, record b { stored = some rows' })

  unfoldable pub get_wrapped_master_password : Text → Browsing (Option WrappedMasterPassword)
  unfolding open_db
  get_wrapped_master_password credential_id = do rows ← open_db; pure (store.get credential_id rows)

  unfoldable pub list_wrapped_credential_ids : Browsing (List Text)
  unfolding open_db
  list_wrapped_credential_ids = do rows ← open_db; pure (store.get_all_keys rows)

  unfoldable pub delete_wrapped_master_password : Text → Browsing (Unit {0})
  unfolding open_db
  delete_wrapped_master_password credential_id = do
    rows ← open_db
    λ b. (ok tt, record b { stored = some (store.delete credential_id rows) })
