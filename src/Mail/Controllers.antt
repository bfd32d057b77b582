-- ===== src/Mail/Controllers.antt =====
-- The routes of the mail side, each with its guard: mail/rules/rules.controller.ts,
-- mail/candidates/candidates.controller.ts, email-accounts/email-accounts.controller.ts and the
-- folder notifications.
pub mod Locked
use my_account_controller.Common.{
  ℕ, Option, none, some, List, Text, ◌==◌, ◌&&◌, given, ok, err, Error, plain, oauth_state_mismatch,
  login_required, or_throw, throw_if, from_result, pure, gets, catching, ◌>>=◌, ◌>>◌,
}
use my_account_controller.Database.{Prisma, EmailRule, EmailCandidate}
use my_account_controller.Crypto.{CryptoService}
use my_account_controller.Crypto.Encoding.{Bytes}
use my_account_controller.Auth.Guards.{logged_in_guard, unlocked_guard, current_user_id}
use my_account_controller.Auth.Service.{state_differs}
use my_account_controller.Mail.Provider.{MailProvider}
use my_account_controller.Mail.Matcher.{Unicode, RuleWithConditions}
use my_account_controller.Mail.Rules
use my_account_controller.Mail.Rules.{RuleData, RuleChange}
use my_account_controller.Mail.Candidates
use my_account_controller.Mail.Candidates.{ScanState, is_pending}
use my_account_controller.Mail.EmailAccounts
use my_account_controller.Mail.EmailAccounts.{GmailOAuth, EmailAccountSummary}
use my_account_controller.World.{Action, draw, change_session}

module _ (prisma : Prisma) where
  unfoldable pub find_rules : Option Text → Action (List RuleWithConditions)
  find_rules email_account_id = do
    (user_id, key) ← unlocked_guard
    Rules.find_all prisma user_id email_account_id

  unfoldable pub create_rule : RuleData → Action EmailRule
  create_rule body = do (user_id, key) ← unlocked_guard; Rules.create prisma user_id body

  unfoldable pub update_rule : Text → RuleChange → Action (Unit {0})
  update_rule id body = do (user_id, key) ← unlocked_guard; Rules.update prisma user_id id body

  unfoldable pub remove_rule : Text → Action (Unit {0})
  remove_rule id = do (user_id, key) ← unlocked_guard; Rules.remove prisma user_id id

  unfoldable pub find_pending_candidates : Action (List (EmailCandidate × Option EmailRule))
  find_pending_candidates = do
    (user_id, key) ← unlocked_guard
    Candidates.find_pending prisma user_id

  -- The three counters of the scan.
  unfoldable pub scan_candidates : Unicode → MailProvider → Action (ℕ × ℕ × ℕ)
  scan_candidates unicode gmail = do
    (user_id, key) ← unlocked_guard
    λ w.
        let (result, s) = Candidates.scan prisma unicode gmail user_id w in
        elim result [
          | err e ↦ (err e, s.world)
          | ok _ ↦ (ok (s.scanned_accounts, s.created_candidates, s.failed_accounts), s.world)
        ]

  unfoldable pub important_summary : Action (List (Text × Text × ℕ))
  important_summary = do
    (user_id, key) ← unlocked_guard
    Candidates.important_summary prisma user_id

  unfoldable pub approve_candidate : MailProvider → Text → Action (Unit {0})
  approve_candidate gmail id = do
    (user_id, key) ← unlocked_guard
    Candidates.approve prisma gmail user_id id

  unfoldable pub exclude_candidate : Text → Action (Unit {0})
  exclude_candidate id = do (user_id, key) ← unlocked_guard; Candidates.exclude prisma user_id id

  -- `NotificationsService.summary`, on a route without a guard: the number of pending candidates
  -- of one of the groups.
  unfoldable pub notification_count : Text → Action ℕ
  notification_count email_account_id = gets (λ w.
      prisma.candidates.count (λ c. is_pending c.status && c.email_account_id == email_account_id)
        w.db.candidates)

-- Where `oauthCallback` redirects to: `?connected=1` or `?error=` with the message.
pub data OauthRedirect : Type 0 where
  connected : OauthRedirect
  failed : Error → OauthRedirect

module _ (prisma : Prisma) (crypto : CryptoService) (token_key : Bytes) where
  unfoldable pub find_email_accounts : Action (List EmailAccountSummary)
  find_email_accounts = do
    user_id ← logged_in_guard
    EmailAccounts.find_all prisma crypto token_key user_id

  unfoldable pub remove_email_account : Text → Action (Unit {0})
  remove_email_account id = do
    user_id ← logged_in_guard
    EmailAccounts.remove prisma crypto token_key user_id id

  module _ (client : GmailOAuth) where
    unfoldable pub oauth_start : Action Text
    oauth_start = do
      user_id ← logged_in_guard
      d ← draw
      let state = EmailAccounts.generate_state client d
      change_session (λ s. record s { gmail_oauth_state = some state })
      pure (EmailAccounts.build_auth_url client state)

    -- The body of the `try`.
    unfoldable pub connect_gmail : Text → Option Text → Action (Unit {0})
    connect_gmail code state = do
      expected ← gets (λ w. w.session.gmail_oauth_state)
      throw_if (state_differs state expected) (plain oauth_state_mismatch)
      change_session (λ s. record s { gmail_oauth_state = none })
      user ← current_user_id
      user_id ← or_throw (given user) (plain login_required)
      tokens ← from_result (EmailAccounts.exchange_code_for_tokens client code)
      account ← EmailAccounts.create_from_gmail prisma crypto token_key user_id tokens
      pure tt

    unfoldable pub oauth_callback : Text → Option Text → Action OauthRedirect
    oauth_callback code state =
        catching (do connect_gmail code state; pure connected) (λ e. pure (failed e))
