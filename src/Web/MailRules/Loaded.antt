-- ===== src/Web/MailRules/Loaded.antt =====
-- The lists of rules that the page holds (apps/web/src/app/(app)/mail/rules/page.tsx).
use my_account_controller.Common.{◌≡◌, arith, false, some, List, Text, ◌==◌, ok}
use my_account_controller.Database.{Prisma}
use my_account_controller.Mail.Matcher.{RuleWithConditions}
use my_account_controller.Mail.Controllers as Routes
use my_account_controller.Web.Api.{Http, received-ok}
use my_account_controller.Web.Browser.{Browser, request}
use my_account_controller.Web.MailRules.{MailRules, rules_of, load_rules}

-- Loading the rules of a mail account, if the server answers with them, shows those under the
-- account, and leaves what is shown under another account.
rules_of-load_rules :
    (http : Http) (prisma : Prisma) (id other : Text) (p : MailRules) (b : Browser)
    {rules : List RuleWithConditions}
    → (Routes.find_rules prisma (some id) b.server).0 ≡ ok rules
    → (other == id) ≡ false
    → (rules_of id (load_rules http prisma id (p, b)).0.rules_by_account ≡ some rules)
      × (rules_of other (load_rules http prisma id (p, b)).0.rules_by_account
          ≡ rules_of other p.rules_by_account)
unfolding rules_of load_rules request
rules_of-load_rules http prisma id other p b {rules} found apart =
    let seen = received-ok http {A = List RuleWithConditions} rules in
    (ground (arith, seen), ground (arith, seen))
