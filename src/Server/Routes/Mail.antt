-- ===== src/Server/Routes/Mail.antt =====
-- The routes of the mail side (apps/api/src/mail, apps/api/src/email-accounts).
use my_account_controller.Common.{
  ◌≡◌, refl, arith, Option, Text, Result-cases, inl, inr, ok, err, pure, ◌>>=◌, from_result, given,
  ◌>>◌, some, none, Bool-cases, Option-cases, ◌==◌, ◌&&◌,
}
use my_account_controller.Crypto.{CryptoService}
use my_account_controller.Crypto.Encoding.{Bytes}
use my_account_controller.Database.{Prisma}
use my_account_controller.Auth.Service.{state_differs}
use my_account_controller.Auth.Guards.{current_user_id}
use my_account_controller.Mail.Provider.{MailProvider}
use my_account_controller.Mail.Matcher.{Unicode}
use my_account_controller.Mail.Rules.{RuleData, RuleChange}
use my_account_controller.Mail.Rules
use my_account_controller.Mail.Candidates
use my_account_controller.Mail.EmailAccounts.{GmailOAuth}
use my_account_controller.Mail.EmailAccounts
use my_account_controller.Mail.Controllers
use my_account_controller.Server.Keeps.{Keeps, same_keys, unlocked_route, logged_in_route}
use my_account_controller.Server.Keys.Mail.{
  Quiet, create_rule-keys, update_rule-keys, remove_rule-keys, exclude-keys, approve-keys,
  create_from_gmail-keys, remove_email_account-keys,
}
use my_account_controller.Server.Keys.Scans.{scan_accounts-keys}
use my_account_controller.World.{World, draw, change_session}

module _ (prisma : Prisma) where
  pub find_rules : (id : Option Text) → Keeps (Controllers.find_rules prisma id)
  unfolding Controllers.find_rules Rules.find_all
  find_rules id = unlocked_route (λ u. Rules.find_all prisma u.0 id) (λ u. same_keys _ (λ w. refl))

  pub create_rule : (d : RuleData) → Keeps (Controllers.create_rule prisma d)
  unfolding Controllers.create_rule
  create_rule d =
      unlocked_route (λ u. Rules.create prisma u.0 d)
        (λ u. same_keys _ (create_rule-keys prisma u.0 d))

  pub update_rule : (id : Text) (d : RuleChange) → Keeps (Controllers.update_rule prisma id d)
  unfolding Controllers.update_rule
  update_rule id d =
      unlocked_route (λ u. Rules.update prisma u.0 id d)
        (λ u. same_keys _ (update_rule-keys prisma u.0 id d))

  pub remove_rule : (id : Text) → Keeps (Controllers.remove_rule prisma id)
  unfolding Controllers.remove_rule
  remove_rule id =
      unlocked_route (λ u. Rules.remove prisma u.0 id)
        (λ u. same_keys _ (remove_rule-keys prisma u.0 id))

  pub find_pending_candidates : Keeps (Controllers.find_pending_candidates prisma)
  unfolding Controllers.find_pending_candidates Candidates.find_pending
  find_pending_candidates =
      unlocked_route (λ u. Candidates.find_pending prisma u.0) (λ u. same_keys _ (λ w. refl))

  pub important_summary : Keeps (Controllers.important_summary prisma)
  unfolding Controllers.important_summary Candidates.important_summary
  important_summary =
      unlocked_route (λ u. Candidates.important_summary prisma u.0) (λ u. same_keys _ (λ w. refl))

  pub exclude_candidate : (id : Text) → Keeps (Controllers.exclude_candidate prisma id)
  unfolding Controllers.exclude_candidate
  exclude_candidate id =
      unlocked_route (λ u. Candidates.exclude prisma u.0 id)
        (λ u. same_keys _ (exclude-keys prisma u.0 id))

  pub notification_count : (id : Text) → Keeps (Controllers.notification_count prisma id)
  unfolding Controllers.notification_count
  notification_count id = same_keys _ (λ w. refl)

  module _ (box : MailProvider) (q : Quiet box) where
    pub approve_candidate : (id : Text) → Keeps (Controllers.approve_candidate prisma box id)
    unfolding Controllers.approve_candidate
    approve_candidate id =
        unlocked_route (λ u. Candidates.approve prisma box u.0 id)
          (λ u. same_keys _ (λ w. approve-keys prisma box u.0 id w q))

    pub scan_candidates :
        (unicode : Unicode) → Keeps (Controllers.scan_candidates prisma unicode box)
    unfolding Controllers.scan_candidates Candidates.scan
    scan_candidates unicode =
        unlocked_route
          (λ u w.
            let (result, s) = Candidates.scan prisma unicode box u.0 w in
            elim result [
              | err e ↦ (err e, s.world)
              | ok _ ↦ (ok (s.scanned_accounts, s.created_candidates, s.failed_accounts), s.world)
            ])
          (λ u. same_keys _ (λ w. ground (
            arith,
            scan_accounts-keys prisma unicode box q
                (prisma.email_accounts.find_many (λ a. a.user_id == u.0 && a.is_active)
                  w.db.email_accounts)
                (Candidates.start prisma unicode box w),
          )))

  module _ (crypto : CryptoService) (token_key : Bytes) where
    pub find_email_accounts : Keeps (Controllers.find_email_accounts prisma crypto token_key)
    unfolding Controllers.find_email_accounts EmailAccounts.find_all
    find_email_accounts =
        logged_in_route (λ u. EmailAccounts.find_all prisma crypto token_key u)
          (λ u. same_keys _ (λ w. refl))

    pub remove_email_account :
        (id : Text) → Keeps (Controllers.remove_email_account prisma crypto token_key id)
    unfolding Controllers.remove_email_account
    remove_email_account id =
        logged_in_route (λ u. EmailAccounts.remove prisma crypto token_key u id)
          (λ u. same_keys _ (remove_email_account-keys prisma crypto token_key u id))

    module _ (client : GmailOAuth) where
      pub oauth_start : Keeps (Controllers.oauth_start prisma crypto token_key client)
      unfolding Controllers.oauth_start
      oauth_start =
          logged_in_route
            (λ u. draw >>= (λ d.
              change_session
                (λ s. record s { gmail_oauth_state = some (EmailAccounts.generate_state client d) })
              >> pure
                  (EmailAccounts.build_auth_url client (EmailAccounts.generate_state client d))))
            (λ u. same_keys _ (λ w. refl))

      connect_gmail-keys :
          (code : Text) (state : Option Text) (w : World)
          → (Controllers.connect_gmail prisma crypto token_key client code state w).1.keys ≡ w.keys
      unfolding Controllers.connect_gmail current_user_id
      connect_gmail-keys code state w =
          let v = record w { session = record w.session { gmail_oauth_state = none } } in
          elim (Bool-cases (state_differs state w.session.gmail_oauth_state)) [
            | inl differs ↦ ground arith
            | inr same ↦ elim (Option-cases (given w.session.user_id)) [
              | inl nobody ↦ ground arith
              | inr (u, there) ↦
                  elim (Result-cases
                    (from_result (EmailAccounts.exchange_code_for_tokens client code) v)) [
                      | inl (tokens, t, e) ↦
                          ground
                            (arith, e, create_from_gmail-keys prisma crypto token_key u tokens v)
                      | inr (x, t, e) ↦ ground (arith, e)
                    ]
            ]
          ]

      pub oauth_callback :
          (code : Text) (state : Option Text)
          → Keeps (Controllers.oauth_callback prisma crypto token_key client code state)
      unfolding Controllers.oauth_callback
      oauth_callback code state = same_keys _ (λ w. ground (arith, connect_gmail-keys code state w))
