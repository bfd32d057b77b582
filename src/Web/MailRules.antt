-- ===== src/Web/MailRules.antt =====
-- The page of the mail rules around its forms, `MailRulesContent` of
-- apps/web/src/app/(app)/mail/rules/page.tsx. A handler runs to the answers of its requests.
pub mod Loaded
use my_account_controller.Common.{
  ℕ, Bool, true, false, Option, none, some, List, [], ◌∷◌, Text, ◌==◌, Error, ok, err,
  if◌then◌else◌,
}
use my_account_controller.Crypto.{CryptoService}
use my_account_controller.Crypto.Encoding.{Bytes}
use my_account_controller.Database.{Prisma, EmailRule}
use my_account_controller.Mail.Matcher.{RuleWithConditions}
use my_account_controller.Mail.EmailAccounts.{GmailOAuth, EmailAccountSummary}
use my_account_controller.Mail.Controllers as Routes
use my_account_controller.Web.Api.{Http}
use my_account_controller.Web.Browser.{Browser, request, attempt}

-- `Record<string, EmailRuleItem[]>`
abbrev pub RulesByAccount : Type 0
RulesByAccount = List (Text × List RuleWithConditions)

-- `rulesByAccount[id]`
unfoldable pub rules_of : Text → RulesByAccount → Option (List RuleWithConditions)
rules_of id [] = none
rules_of id ((k, rules) ∷ rest) =
    let others = rules_of id rest in if k == id then some rules else others

-- `href` is where the browser goes.
pub record MailRules : Type 0 where
  pub accounts : Option (List EmailAccountSummary)
  pub rules_by_account : RulesByAccount
  pub error : Option Error
  pub connecting : Bool
  pub href : Option Text

module _ (http : Http) (prisma : Prisma) where
  -- `{ ...prev, [emailAccountId]: rules }`; an error is passed over.
  unfoldable pub load_rules : Text → MailRules × Browser → MailRules × Browser
  load_rules id =
      attempt (request http {A = List RuleWithConditions} (Routes.find_rules prisma (some id)))
        (λ rules s. (record s.0 { rules_by_account = (id, rules) ∷ s.0.rules_by_account }, s.1))
        (λ e s. s)

  unfoldable pub load_all : List EmailAccountSummary → MailRules × Browser → MailRules × Browser
  load_all [] s = s
  load_all (account ∷ accounts) s = load_all accounts (load_rules account.id s)

  unfoldable pub handle_delete_rule : Bool → EmailRule → MailRules × Browser → MailRules × Browser
  unfolding load_rules
  handle_delete_rule false rule s = s
  handle_delete_rule true rule s =
      attempt (request http {A = Unit {0}} (Routes.remove_rule prisma rule.id))
        (λ u t. load_rules rule.email_account_id t) (λ e t. (record t.0 { error = some e }, t.1)) s

  module _ (crypto : CryptoService) (token_key : Bytes) where
    unfoldable pub load_mail_accounts : MailRules × Browser → MailRules × Browser
    unfolding load_all
    load_mail_accounts =
        attempt
          (request http {A = List EmailAccountSummary}
            (Routes.find_email_accounts prisma crypto token_key))
          (λ accounts s. load_all accounts (record s.0 { accounts = some accounts }, s.1))
          (λ e s. (record s.0 { error = some e }, s.1))

    unfoldable pub handle_connect : GmailOAuth → MailRules × Browser → MailRules × Browser
    handle_connect client (p, b) =
        attempt (request http {A = Text} (Routes.oauth_start prisma crypto token_key client))
          (λ url s. (record s.0 { href = some url }, s.1))
          (λ e s. (record s.0 { error = some e; connecting = false }, s.1))
          (record p { error = none; connecting = true }, b)

    unfoldable pub handle_disconnect : Bool → Text → MailRules × Browser → MailRules × Browser
    unfolding load_mail_accounts
    handle_disconnect false id s = s
    handle_disconnect true id s =
        attempt
          (request http {A = Unit {0}} (Routes.remove_email_account prisma crypto token_key id))
          (λ u t. load_mail_accounts t) (λ e t. (record t.0 { error = some e }, t.1)) s
