-- ===== src/Web/Login/Orderly.antt =====
-- What holds of the requests of the login page (apps/web/src/app/login/page.tsx), and its tests.
use my_account_controller.Common.{
  suc, ◌≤◌, ◌≡◌, ◌≢◌, refl, ap, arith, Bool, true, false, List, [], ◌∷◌, ◌++◌, Text, length, all,
}
use my_account_controller.Web.Login.{
  LoginStep, LoginRequest, google, setup, unlock, google_start, setup_password, unlock_password,
  biometric, Page, endpoint, submit_disabled,
}

-- The requests that a page with this step sends.
abbrev pub belongs : LoginStep → LoginRequest → Bool
belongs google google_start = true
belongs setup (setup_password t) = true
belongs unlock (unlock_password t) = true
belongs unlock biometric = true
belongs step r = false

-- A setup was sent with the box confirmed.
abbrev pub Confirmed : List (LoginRequest × Bool) → Type 0
Confirmed [] = Unit
Confirmed ((google_start, b) ∷ rs) = Confirmed rs
Confirmed ((setup_password t, b) ∷ rs) = (b ≡ true) × Confirmed rs
Confirmed ((unlock_password t, b) ∷ rs) = Confirmed rs
Confirmed ((biometric, b) ∷ rs) = Confirmed rs

-- The page runs requests of its own only. With the form, `submitting` tells whether a request runs,
-- and there is one at most; the first page does not set it.
pub record IsOrderly (p : Page) : Type 0 where
  pub own : all (belongs p.step) p.running ≡ true
  pub device : p.can_use_biometric ≡ true → p.step ≡ unlock
  pub first : p.step ≡ google → p.submitting ≡ false
  pub one : p.step ≢ google → length p.running ≤ 1
  pub busy : p.step ≢ google → p.submitting ≡ true → length p.running ≡ 1
  pub idle : p.step ≢ google → p.submitting ≡ false → length p.running ≡ 0
  pub confirmed : Confirmed p.sent

pub all-middle :
    (f : LoginRequest → Bool) (before after : List LoginRequest) (r : LoginRequest)
    → all f (before ++ (r ∷ after)) ≡ true
    → (f r ≡ true) × (all f (before ++ after) ≡ true)
all-middle f [] after r h = ground arith
all-middle f (x ∷ before) after r h = ground (arith, all-middle f before after r)

pub length-middle :
    (before after : List LoginRequest) (r : LoginRequest)
    → length (before ++ (r ∷ after)) ≡ suc (length (before ++ after))
length-middle [] after r = refl
length-middle (x ∷ before) after r = ap suc (length-middle before after r)

pub belongs-google : (step : LoginStep) → belongs step google_start ≡ true → step ≡ google
belongs-google google h = refl
belongs-google setup h = absurd (ground arith)
belongs-google unlock h = absurd (ground arith)

pub belongs-form : (r : LoginRequest) → r ≢ google_start → belongs google r ≡ true → ⊥
belongs-form google_start n h = n refl
belongs-form (setup_password t) n h = cc
belongs-form (unlock_password t) n h = cc
belongs-form biometric n h = cc

pub endpoint-belongs :
    (step : LoginStep) (password : Text)
    → step ≢ google
    → belongs step (endpoint step password) ≡ true
unfolding endpoint
endpoint-belongs google password form = absurd (form refl)
endpoint-belongs setup password form = refl
endpoint-belongs unlock password form = refl

pub submit_confirmed :
    (step : LoginStep) (p : Page) (password : Text)
    → p.step ≡ step
    → submit_disabled p ≡ false
    → Confirmed p.sent
    → Confirmed ((endpoint step password, p.confirmed_no_recovery) ∷ p.sent)
unfolding submit_disabled endpoint
submit_confirmed google p password e free v = v
submit_confirmed setup p password e free v = ground arith
submit_confirmed unlock p password e free v = v

pub submit_free : (p : Page) → submit_disabled p ≡ false → p.submitting ≡ false
unfolding submit_disabled
submit_free p free = ground arith
