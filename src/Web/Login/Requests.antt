-- ===== src/Web/Login/Requests.antt =====
-- The requests of the login page (apps/web/src/app/login/page.tsx).
use my_account_controller.Common.{
  ◌≡◌, ◌≢◌, refl, ◌∙◌, sym, ap, arith, Bool, true, false, Option, none, some, List, ◌∷◌, ◌++◌, Text,
  length, all,
}
use my_account_controller.Web.Login.{
  LoginStep, LoginRequest, google, unlock, google_start, Page, opened, submit_disabled,
  google_login, google_answered, password_submit, biometric_submit, answered, Step, Reach,
  found_device, confirm, login_with_google, google_answer, submit, use_device, answer, here, later,
}
use my_account_controller.Web.Login.Orderly.{
  belongs, IsOrderly, all-middle, length-middle, belongs-google, belongs-form, endpoint-belongs,
  submit_confirmed, submit_free,
}

submit-IsOrderly :
    (p : Page) (password : Text)
    → p.step ≢ google
    → submit_disabled p ≡ false
    → IsOrderly p
    → IsOrderly (password_submit password p)
unfolding password_submit
submit-IsOrderly p password form free v =
    let none_runs = v.idle form (submit_free p free) in
    record {
      own = ground (arith, endpoint-belongs p.step password form, v.own);
      device = v.device;
      first = λ e. absurd (form e);
      one = λ f. omega (arith, none_runs);
      busy = λ f h. omega (arith, none_runs);
      idle = λ f h. absurd (ground arith);
      confirmed = submit_confirmed p.step p password refl free v.confirmed;
    }

device-IsOrderly :
    (p : Page)
    → p.can_use_biometric ≡ true
    → p.submitting ≡ false
    → IsOrderly p
    → IsOrderly (biometric_submit p)
unfolding biometric_submit
device-IsOrderly p there free v =
    let at_unlock = v.device there in
    let form : p.step ≢ google = λ e. ground (arith, at_unlock, e) in
    let none_runs = v.idle form free in
    record {
      own = ground (arith, at_unlock, v.own);
      device = v.device;
      first = λ e. absurd (form e);
      one = λ f. omega (arith, none_runs);
      busy = λ f h. omega (arith, none_runs);
      idle = λ f h. absurd (ground arith);
      confirmed = v.confirmed;
    }

google_login-IsOrderly : (p : Page) → p.step ≡ google → IsOrderly p → IsOrderly (google_login p)
unfolding google_login
google_login-IsOrderly p e v = record {
  own = ground (arith, e, v.own);
  device = v.device;
  first = v.first;
  one = λ form. absurd (form e);
  busy = λ form. absurd (form e);
  idle = λ form. absurd (form e);
  confirmed = v.confirmed;
}

error-IsOrderly :
    (message : Option Text) {p : Page} → IsOrderly p → IsOrderly (record p { error = message })
error-IsOrderly message v = record {
  own = v.own;
  device = v.device;
  first = v.first;
  one = v.one;
  busy = v.busy;
  idle = v.idle;
  confirmed = v.confirmed;
}

-- Of the requests that run, one that belongs to the first page is answered.
google_over-IsOrderly :
    (p : Page) (before after : List LoginRequest)
    → p.running ≡ before ++ (google_start ∷ after)
    → IsOrderly p
    → IsOrderly (record p { running = before ++ after })
google_over-IsOrderly p before after e v =
    let f = belongs p.step in
    let (mine, rest) = all-middle f before after google_start (sym (ap (all f) e) ∙ v.own) in
    let at_first = belongs-google p.step mine in
    record {
      own = rest;
      device = v.device;
      first = v.first;
      one = λ form. absurd (form at_first);
      busy = λ form. absurd (form at_first);
      idle = λ form. absurd (form at_first);
      confirmed = v.confirmed;
    }

google_answer-IsOrderly :
    (result : Option Text) (p : Page) (before after : List LoginRequest)
    → p.running ≡ before ++ (google_start ∷ after)
    → IsOrderly p
    → IsOrderly (google_answered result (record p { running = before ++ after }))
unfolding google_answered
google_answer-IsOrderly none p before after e v = google_over-IsOrderly p before after e v
google_answer-IsOrderly (some m) p before after e v =
    error-IsOrderly (some m) (google_over-IsOrderly p before after e v)

-- A request of the form is answered: it was the only one.
over-IsOrderly :
    (p : Page) (r : LoginRequest) (before after : List LoginRequest)
    → r ≢ google_start
    → p.running ≡ before ++ (r ∷ after)
    → IsOrderly p
    → IsOrderly (record p { running = before ++ after; submitting = false })
over-IsOrderly p r before after other e v =
    let f = belongs p.step in
    let (mine, rest) = all-middle f before after r (sym (ap (all f) e) ∙ v.own) in
    let form : p.step ≢ google = λ g. belongs-form r other (ap (λ s. belongs s r) (sym g) ∙ mine) in
    let longer = length-middle before after r in
    let none_left : length (before ++ after) ≡ 0 =
      omega (arith, v.one form, ap (λ rs. length rs) e, longer) in
    record {
      own = rest;
      device = v.device;
      first = λ g. refl;
      one = λ f. omega (arith, none_left);
      busy = λ f h. absurd (ground arith);
      idle = λ f h. none_left;
      confirmed = v.confirmed;
    }

answer-IsOrderly :
    (result : Option Text) (p : Page) (r : LoginRequest) (before after : List LoginRequest)
    → r ≢ google_start
    → p.running ≡ before ++ (r ∷ after)
    → IsOrderly p
    → IsOrderly (answered result (record p { running = before ++ after }))
unfolding answered
answer-IsOrderly none p r before after other e v = over-IsOrderly p r before after other e v
answer-IsOrderly (some m) p r before after other e v =
    error-IsOrderly (some m) (over-IsOrderly p r before after other e v)

found-IsOrderly :
    (p : Page) (b : Bool)
    → p.step ≡ unlock
    → IsOrderly p
    → IsOrderly (record p { can_use_biometric = b })
found-IsOrderly p b e v = record {
  own = v.own;
  device = λ h. e;
  first = v.first;
  one = v.one;
  busy = v.busy;
  idle = v.idle;
  confirmed = v.confirmed;
}

confirm-IsOrderly :
    (p : Page) (b : Bool) → IsOrderly p → IsOrderly (record p { confirmed_no_recovery = b })
confirm-IsOrderly p b v = record {
  own = v.own;
  device = v.device;
  first = v.first;
  one = v.one;
  busy = v.busy;
  idle = v.idle;
  confirmed = v.confirmed;
}

Step-IsOrderly : {p q : Page} → Step p q → IsOrderly p → IsOrderly q
Step-IsOrderly (found_device p b e) v = found-IsOrderly p b e v
Step-IsOrderly (confirm p b e) v = confirm-IsOrderly p b v
Step-IsOrderly (login_with_google p e) v = google_login-IsOrderly p e v
Step-IsOrderly (google_answer p result before after e) v =
    google_answer-IsOrderly result p before after e v
Step-IsOrderly (submit p password form free) v = submit-IsOrderly p password form free v
Step-IsOrderly (use_device p form there free) v = device-IsOrderly p there free v
Step-IsOrderly (answer p result r before after other e) v =
    answer-IsOrderly result p r before after other e v

opened-IsOrderly : (step : LoginStep) (error : Option Text) → IsOrderly (opened step error)
unfolding opened
opened-IsOrderly step error = record {
  own = refl;
  device = λ h. absurd (ground arith);
  first = λ e. refl;
  one = λ f. omega arith;
  busy = λ f h. absurd (ground arith);
  idle = λ f h. refl;
  confirmed = tt;
}

-- However the page is used from its opening on, it runs requests of its own only: the first page
-- starts of the Google login, of which there may be several, and it never sets the mark; the other
-- two a setup, or an unlocking or a login with the device, at most one at a time, and the mark that
-- disables their buttons is set exactly while one runs. Every request that sets up a master
-- password was sent with the box confirmed that says that it cannot be recovered.
pub Reach-IsOrderly :
    (step : LoginStep) (error : Option Text) {p : Page} → Reach (opened step error) p → IsOrderly p
Reach-IsOrderly step error here = opened-IsOrderly step error
Reach-IsOrderly step error (later r s) = Step-IsOrderly s (Reach-IsOrderly step error r)
