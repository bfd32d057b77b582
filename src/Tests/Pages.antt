-- ===== src/Tests/Pages.antt =====
-- The pages of the web client at concrete states.
use my_account_controller.Common.{
  ◌+◌, ◌<◌, ◌≡◌, ◌↔◌, refl, arith, true, false, some, none, List, [], ◌∷◌, Text, codes, ok, err,
  Result, ◌≢◌, ◌==◌, Memᴰ,
}
use my_account_controller.Crypto.Encoding.{Bytes}
use my_account_controller.Auth.Guards.Laws.{IsOpen}
use my_account_controller.Auth.Controller.{me}
use my_account_controller.Web.Browser.{Browser}
use my_account_controller.Web.Proxy.{Me, proxy, next, proxy_iff}
use my_account_controller.Web.RuleForm.{
  Form, Reach, here, later, add, remove, send, new_form, add_condition, remove_condition, submit,
}
use my_account_controller.Web.RuleForm.Bounds.{IsBounded, Reach-IsBounded, new_form-IsBounded}
use my_account_controller.Web.Login.{
  LoginStep, Page, Step, opened, google_login, login_with_google, password_submit, answered,
  confirm, setup_password, biometric_unlock,
}
use my_account_controller.Web.Login
use my_account_controller.Web.Login.Orderly.{IsOrderly}
use my_account_controller.Web.Login.Requests.{Reach-IsOrderly}
use my_account_controller.Web.Review.{CandidateItem, Review, handle_exclude}
use my_account_controller.Web.Review.InStep.{InStep, find_pending-InStep, handle_exclude-InStep}
use my_account_controller.Web.Navigation.{handle_lock, handle_logout, shown, handle_lock-shut}
use my_account_controller.Mail.Candidates.{find_pending}
use my_account_controller.Database.{delete_candidate}
use my_account_controller.Tests.Server.{password, client, world, alice, candidate, rule}
use my_account_controller.Tests.Browser.{http}

abbrev opened_browser : Browser
opened_browser = record { server = world; stored = some []; draws = 0 }

proxy_iff_example :
    (proxy (some (http.answer Me (me world).0)) ≡ next)
    ↔ ((user : Text) × (key : Bytes) × IsOpen world user key)
proxy_iff_example = proxy_iff http world

-- A second condition is added, the first removed, and the rule sent.
abbrev used : Form
used = remove_condition 0 (add_condition (new_form (codes "m")))

abbrev sent : Form
sent = submit delete_candidate none used

used_up : Reach (new_form (codes "m")) sent
unfolding add_condition new_form remove_condition
used_up =
    later
      (later (later here (add (new_form (codes "m")) (omega arith)))
        (remove (add_condition (new_form (codes "m"))) 0 (omega arith) (omega arith)))
      (send used delete_candidate none refl)

Reach-IsBounded_example : IsBounded sent
Reach-IsBounded_example = Reach-IsBounded (new_form-IsBounded (codes "m")) used_up

-- The box is confirmed, a password set up, and the answer is an error.
abbrev first : Page
first = opened LoginStep.setup none

abbrev confirmed : Page
confirmed = record first { confirmed_no_recovery = true }

abbrev waiting : Page
waiting = password_submit password confirmed

setting_up : Login.Reach first (answered (some []) (record waiting { running = [] }))
unfolding opened Login.endpoint password_submit Login.submit_disabled
setting_up =
    Login.later
      (Login.later (Login.later Login.here (confirm first true refl))
        (Login.submit confirmed password (λ e. cc) refl))
      (Login.answer waiting (some []) (setup_password password) [] [] (λ e. cc) refl)

Reach-IsOrderly_example : IsOrderly (answered (some []) (record waiting { running = [] }))
Reach-IsOrderly_example = Reach-IsOrderly LoginStep.setup none setting_up

-- Two clicks on the button of the Google login start two requests.
abbrev entrance : Page
entrance = opened LoginStep.google none

clicked_twice : Login.Reach entrance (google_login (google_login entrance))
unfolding opened google_login
clicked_twice =
    Login.later (Login.later Login.here (login_with_google entrance refl))
      (login_with_google (google_login entrance) refl)

-- The page lists what the server has, and the candidate is excluded.
abbrev reviewing : Review
reviewing = record {
  candidates = some ((candidate, some rule) ∷ []);
  error = none;
  info = none;
  scanning = false;
}

pending_found :
    find_pending client alice opened_browser.server
    ≡ (ok ((candidate, some rule) ∷ []), opened_browser.server)
unfolding find_pending my_account_controller.Mail.Rules.account_is_owned
    my_account_controller.Common.Text-discrete native.Mathlib.Decide.ℕ_discrete
pending_found = refl

fine : (handle_exclude http client (50 ∷ []) (reviewing, opened_browser)).0.error ≡ none
unfolding handle_exclude my_account_controller.Web.Browser.request
    my_account_controller.Web.Api.received my_account_controller.Web.Api.api_fetch
    my_account_controller.Mail.Controllers.exclude_candidate
    my_account_controller.Auth.Guards.unlocked_guard my_account_controller.Auth.KeyStore.touch
    my_account_controller.Common.Text-discrete native.Mathlib.Decide.ℕ_discrete
    my_account_controller.Auth.KeyStore.is_idle my_account_controller.Mail.Candidates.exclude
    my_account_controller.Mail.Rules.account_is_owned
fine = refl

handle_exclude-InStep_example :
    (cs : List CandidateItem) × ((handle_exclude http client
        (50 ∷ [])
        (reviewing, opened_browser)).0.candidates
      ≡ some cs)
    × InStep client alice
        (handle_exclude http client (50 ∷ []) (reviewing, opened_browser)).1.server.db
        cs
handle_exclude-InStep_example =
    handle_exclude-InStep client http alice (50 ∷ []) reviewing opened_browser refl
      (find_pending-InStep client alice opened_browser.server pending_found) fine

handle_lock-shut_example :
    (shown http (handle_lock http opened_browser).1 ≢ next)
    × (shown http (handle_logout http opened_browser).1 ≢ next)
handle_lock-shut_example = handle_lock-shut http opened_browser
