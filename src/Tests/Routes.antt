-- ===== src/Tests/Routes.antt =====
-- The routes in a session whose key has gone.
use my_account_controller.Common.{
  ◌≡◌, refl, true, false, some, none, [], ◌∷◌, err, unauthorized, unlock_required, remote,
}
use my_account_controller.Database.{or_any, important}
use my_account_controller.Mail.Provider.{MailProvider}
use my_account_controller.Accounts.Generator.{Options}
use my_account_controller.Accounts.Service.{AccountData, AccountChange}
use my_account_controller.Accounts.Backup.{BackupFile}
use my_account_controller.Accounts.Controller
use my_account_controller.Accounts.Controller.Locked.{locked_account_routes}
use my_account_controller.Mail.Rules.{RuleData, RuleChange}
use my_account_controller.Mail.Controllers.{
  find_rules, create_rule, update_rule, remove_rule, find_pending_candidates, scan_candidates,
  important_summary, approve_candidate, exclude_candidate,
}
use my_account_controller.Mail.Controllers.Locked.{locked_mail_routes}
use my_account_controller.Auth.Guards.{unlocked_guard}
use my_account_controller.Auth.KeyStore
use my_account_controller.Tests.Primitives.{crypto, zeros}
use my_account_controller.Tests.Server.{client, world, session, plain_letters}
use my_account_controller.Tests.Format.{unary_format}
use my_account_controller.World.{World}

abbrev stale : World
stale = record world { keys = [] }

abbrev marked : World
marked = record stale { session = record session { unlocked = false } }

stale_refused : unlocked_guard stale ≡ (err (unauthorized unlock_required), marked)
unfolding unlocked_guard KeyStore.touch
stale_refused = refl

abbrev sent : AccountData
sent = record {
  service_name = [];
  url_or_app_name = [];
  category = [];
  login_id = [];
  password = [];
  custom_fields = none;
  memo = none;
}

abbrev change : AccountChange
change = record {
  service_name = none;
  url_or_app_name = none;
  category = none;
  login_id = none;
  password = none;
  memo = none;
  id = none;
  user_id = none;
  encrypted_password = none;
  custom_fields = none;
  created_at = none;
  updated_at = none;
}

abbrev options : Options
options = record {
  length = none;
  include_uppercase = none;
  include_lowercase = none;
  include_numbers = none;
  include_symbols = none;
}

abbrev file : BackupFile
file = record { version = 1; exported_at = 0; salt = []; payload = [] }

locked_account_routes_example :
    (Controller.find_all client crypto (λ a b. true) none none stale
      ≡ (err (unauthorized unlock_required), marked))
    × (Controller.find_one client crypto (10 ∷ []) stale
        ≡ (err (unauthorized unlock_required), marked))
    × (Controller.create client crypto sent stale ≡ (err (unauthorized unlock_required), marked))
    × (Controller.generate_password client crypto zeros 0 options stale
        ≡ (err (unauthorized unlock_required), marked))
    × (Controller.export_accounts client crypto unary_format [] stale
        ≡ (err (unauthorized unlock_required), marked))
    × (Controller.import_accounts client crypto unary_format [] file stale
        ≡ (err (unauthorized unlock_required), marked))
    × (Controller.update client crypto (10 ∷ []) change stale
        ≡ (err (unauthorized unlock_required), marked))
    × (Controller.remove client crypto (10 ∷ []) stale
        ≡ (err (unauthorized unlock_required), marked))
locked_account_routes_example =
    locked_account_routes client crypto stale stale_refused (λ a b. true) (10 ∷ []) [] none none
      sent change zeros 0 options unary_format file

abbrev provider : MailProvider
provider = record {
  list_candidate_messages = λ id w. (err remote, w);
  apply_action = λ id m action w. (err remote, w);
}

abbrev rule_sent : RuleData
rule_sent = record {
  email_account_id = [];
  logical_operator = or_any;
  action_type = important;
  conditions = [];
}

abbrev rule_change : RuleChange
rule_change = record {
  logical_operator = none;
  action_type = none;
  is_active = some false;
  conditions = none;
}

locked_mail_routes_example :
    (find_rules client none stale ≡ (err (unauthorized unlock_required), marked))
    × (create_rule client rule_sent stale ≡ (err (unauthorized unlock_required), marked))
    × (update_rule client [] rule_change stale ≡ (err (unauthorized unlock_required), marked))
    × (remove_rule client [] stale ≡ (err (unauthorized unlock_required), marked))
    × (find_pending_candidates client stale ≡ (err (unauthorized unlock_required), marked))
    × (scan_candidates client plain_letters provider stale
        ≡ (err (unauthorized unlock_required), marked))
    × (important_summary client stale ≡ (err (unauthorized unlock_required), marked))
    × (approve_candidate client provider [] stale ≡ (err (unauthorized unlock_required), marked))
    × (exclude_candidate client [] stale ≡ (err (unauthorized unlock_required), marked))
locked_mail_routes_example =
    locked_mail_routes client stale stale_refused plain_letters provider [] none rule_sent
      rule_change
