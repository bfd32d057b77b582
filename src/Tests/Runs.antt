-- ===== src/Tests/Runs.antt =====
-- Runs of the whole server and of its key store.
use my_account_controller.Common.{
  ℕ, ◌≡◌, ◌≢◌, refl, arith, true, false, some, none, Option, List, [], ◌∷◌, Text, codes, ok, err,
  cipher,
}
use my_account_controller.Auth.KeyStore.{UnlockEntry, lookup}
use my_account_controller.Auth.KeyStore.Cells.{
  Event, setting, touching, limiting, deleting, run, cell_run, of_session, run-cell_run,
}
use my_account_controller.Accounts.Service.{AccountData}
use my_account_controller.Accounts.Controller as Vault
use my_account_controller.Server.{Environment, Request, handle, serve}
use my_account_controller.Server.Keeps.{KeysFit}
use my_account_controller.Server.Reach.{Reach, booted, later, Reach-KeysFit}
use my_account_controller.Tests.Primitives.{node, crypto, zeros, fit}
use my_account_controller.Tests.Server.{client, world, password, plain_letters}
use my_account_controller.Tests.Format.{unary_format}
use my_account_controller.Tests.Browser.{enrolling, http}
use my_account_controller.Crypto.Encoding.{to_well_formed}
use my_account_controller.Database.{Account}
use my_account_controller.Web.Browser.{Browser}
use my_account_controller.Web.Accounts.{
  AccountForm, NewAccount, AccountDetail, handle_submit, load_account,
}
use my_account_controller.Web.Accounts.Shown.{load_account-handle_submit}
use my_account_controller.World.{World}

-- Two sessions: the second is set and touched in between, and deleted.
abbrev calls : List (Text × Event)
calls =
    (1 ∷ [], setting (7 ∷ []) 15 0)
    ∷ (2 ∷ [], setting (8 ∷ []) 15 0)
    ∷ (1 ∷ [], touching 5)
    ∷ (2 ∷ [], deleting)
    ∷ (1 ∷ [], limiting 0)
    ∷ (1 ∷ [], touching 9)
    ∷ []

run-cell_run_example :
    of_session (1 ∷ []) (run calls []) ≡ cell_run (of_session (1 ∷ []) calls) (lookup (1 ∷ []) [])
run-cell_run_example = run-cell_run (1 ∷ []) calls []

abbrev environment : Environment
environment = record {
  prisma = client;
  crypto = crypto;
  node = node;
  webauthn = enrolling;
  google = record {
    hex_state = λ n. [];
    generate_auth_url = λ state. state;
    get_token = λ code. none;
    verify_id_token = λ token. none;
  };
  gmail_oauth = record {
    hex_state = λ n. [];
    generate_auth_url = λ state. state;
    get_token = λ code. none;
    get_profile = λ answer. none;
  };
  gmail_api = record {
    get_access_token = λ c. none;
    list_messages = λ c. none;
    get_message = λ c id. none;
    moves = λ c id action. false;
    parse_date = λ t. some 0;
    parse_number = λ t. some 0;
  };
  unicode = plain_letters;
  random = zeros;
  json_format = unary_format;
  contains = λ s t. true;
  token_key = fit 32 [];
}

-- Alice is logged in when the server starts, and unlocks.
abbrev started : World
started = record world { keys = [] }

abbrev unlocked : World
unlocked = handle environment (Request.unlock password) started

reached : Reach environment unlocked
reached = later (booted started refl) (serve started (Request.unlock password))

Reach-KeysFit_example : KeysFit unlocked.keys
Reach-KeysFit_example = Reach-KeysFit environment reached

-- Alice types an account into the form.
abbrev form : AccountForm
form = record {
  service_name = codes "Shop";
  url_or_app_name = codes "shop.com";
  category = [];
  login_id = codes "al";
  password = codes "pin";
  memo = [];
}

abbrev browser : Browser
browser = record { server = unlocked; stored = none; draws = 0 }

abbrev empty_page : NewAccount
empty_page = record { error = none; submitting = false; left = false }

abbrev empty_detail : AccountDetail
empty_detail = record { account = none; error = none; left = false }

saved : (handle_submit http client crypto form (empty_page, browser)).0.error ≡ none
unfolding handle_submit my_account_controller.Web.Accounts.body_of Vault.create handle
    my_account_controller.Web.Browser.request my_account_controller.Web.Api.received
    my_account_controller.Web.Api.api_fetch my_account_controller.Auth.Guards.unlocked_guard
    my_account_controller.Auth.Controller.unlock my_account_controller.Auth.Guards.logged_in_guard
    my_account_controller.Auth.Service.unlock my_account_controller.Common.Text-discrete
    my_account_controller.Crypto.Kdf.verify_master_password
    my_account_controller.Auth.KeyStore.touch my_account_controller.Auth.KeyStore.set
    my_account_controller.Auth.KeyStore.is_idle my_account_controller.Accounts.Service.create
    my_account_controller.Accounts.Service.new_account my_account_controller.Crypto.Aes.encrypt
    my_account_controller.Crypto.Aes.framed my_account_controller.Database.account_clash
    my_account_controller.Crypto.Kdf.derive_encryption_key my_account_controller.Auth.Guards.admit
    my_account_controller.Auth.Guards.touch_key my_account_controller.Web.Api.body_of
    my_account_controller.Web.Api.message_of my_account_controller.Accounts.Service.account_conflict
    native.Mathlib.Decide.ℕ_discrete to_well_formed
saved = refl

load_account-handle_submit_example :
    (a : Account) × ((load_account http client crypto a.id
        (empty_detail, (handle_submit http client crypto form (empty_page, browser)).1)).0.account
      ≡ some (a, to_well_formed (codes "pin")))
load_account-handle_submit_example =
    load_account-handle_submit http environment form empty_page empty_detail browser reached saved
