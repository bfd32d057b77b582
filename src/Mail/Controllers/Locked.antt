-- ===== src/Mail/Controllers/Locked.antt =====
-- The routes of the rules and the candidates in a session that the guard refuses
-- (mail/rules/rules.controller.ts, mail/candidates/candidates.controller.ts).
use my_account_controller.Common.{◌≡◌, arith, Option, Text, err, Error}
use my_account_controller.Database.{Prisma}
use my_account_controller.Auth.Guards.{unlocked_guard}
use my_account_controller.Mail.Provider.{MailProvider}
use my_account_controller.Mail.Matcher.{Unicode}
use my_account_controller.Mail.Rules.{RuleData, RuleChange}
use my_account_controller.Mail.Controllers.{
  find_rules, create_rule, update_rule, remove_rule, find_pending_candidates, scan_candidates,
  important_summary, approve_candidate, exclude_candidate,
}
use my_account_controller.World.{World}

module _ (prisma : Prisma) (w : World) {e : Error} {w' : World}
    (locked : unlocked_guard w ≡ (err e, w')) where
  -- If the guard refuses the session, all nine routes of the rules and the candidates answer with
  -- its error, and leave the server as the guard left it: no mailbox is asked or changed.
  pub locked_mail_routes :
      (unicode : Unicode) (gmail : MailProvider) (id : Text) (account : Option Text) (d : RuleData)
      (change : RuleChange)
      → (find_rules prisma account w ≡ (err e, w'))
        × (create_rule prisma d w ≡ (err e, w'))
        × (update_rule prisma id change w ≡ (err e, w'))
        × (remove_rule prisma id w ≡ (err e, w'))
        × (find_pending_candidates prisma w ≡ (err e, w'))
        × (scan_candidates prisma unicode gmail w ≡ (err e, w'))
        × (important_summary prisma w ≡ (err e, w'))
        × (approve_candidate prisma gmail id w ≡ (err e, w'))
        × (exclude_candidate prisma id w ≡ (err e, w'))
  unfolding find_rules create_rule update_rule remove_rule find_pending_candidates scan_candidates
      important_summary approve_candidate exclude_candidate
  locked_mail_routes unicode gmail id account d change = (
    ground arith,
    ground arith,
    ground arith,
    ground arith,
    ground arith,
    ground arith,
    ground arith,
    ground arith,
    ground arith,
  )
