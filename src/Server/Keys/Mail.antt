-- ===== src/Server/Keys/Mail.antt =====
-- The mail side (apps/api/src/mail, apps/api/src/email-accounts) and the key store.
use my_account_controller.Common.{
  ℕ, ◌≡◌, refl, arith, Option, none, some, List, [], ◌∷◌, Text, Result, ok, ◌==◌, Option-cases,
  Result-cases, inl, inr, ◌⊎◌, ◌+◌, or_else,
}
use my_account_controller.Crypto.{CryptoService}
use my_account_controller.Crypto.Encoding.{Bytes}
use my_account_controller.Database.{
  Prisma, EmailAccount, EmailCandidate, CandidateStatus, approved, ProviderType, gmail,
  Written-cases, condition_clash, rule_clash, with_conditions, with_rules,
}
use my_account_controller.Mail.Provider.{MailProvider, RawMailMessage}
use my_account_controller.Mail.Provider
use my_account_controller.Mail.Gmail.{
  GmailApi, Credentials, renewed, save_renewed, get_authorized_client, list_candidate_messages,
  apply_action, gmail_provider,
}
use my_account_controller.Mail.Matcher.{Unicode}
use my_account_controller.Mail.Rules.{ConditionData, RuleData, RuleChange}
use my_account_controller.Mail.Rules
use my_account_controller.Mail.Candidates.{
  approve, exclude, perform, set_status, find_owned, mail_action,
}
use my_account_controller.Mail.EmailAccounts.{GmailTokens}
use my_account_controller.Mail.EmailAccounts
use my_account_controller.World.{World, MailAction, db_of, put_db}

-- A provider of mail leaves the keys alone.
pub record Quiet (box : MailProvider) : Type 0 where
  pub lists : (id : Text) (w : World) → (box.list_candidate_messages id w).1.keys ≡ w.keys
  pub applies :
      (id message : Text) (action : MailAction) (w : World)
      → (box.apply_action id message action w).1.keys ≡ w.keys

module _ (prisma : Prisma) (crypto : CryptoService) (token_key : Bytes) where
  module _ (api : GmailApi) where
    save_renewed-keys :
        (id : Text) (token : Option Text) (expiry : Option ℕ) (w : World)
        → (save_renewed prisma crypto token_key api id token expiry w).1.keys ≡ w.keys
    unfolding save_renewed
    save_renewed-keys id none expiry w = refl
    save_renewed-keys id (some t) expiry w = ground arith

    get_authorized_client-keys :
        (id : Text) (w : World)
        → (get_authorized_client prisma crypto token_key api id w).1.keys ≡ w.keys
    unfolding get_authorized_client
    get_authorized_client-keys id w =
        elim (Option-cases
          (prisma.email_accounts.find_first (λ a. a.id == id) w.db.email_accounts)) [
            | inl missing ↦ ground arith
            | inr (a, there) ↦
                elim (Option-cases (crypto.decrypt a.encrypted_access_token token_key)) [
                  | inl failed ↦ ground arith
                  | inr (access, opened) ↦
                      elim (Option-cases (crypto.decrypt a.encrypted_refresh_token token_key)) [
                        | inl failed ↦ ground arith
                        | inr (refresh, opened_too) ↦
                            let before : Credentials = record {
                              access_token = some access;
                              refresh_token = refresh;
                              expiry_date = a.token_expires_at;
                            } in
                            elim (Option-cases (api.get_access_token before)) [
                              | inl failed ↦ ground arith
                              | inr (after, answered) ↦ ground (
                                arith,
                                save_renewed-keys id (renewed before after) after.expiry_date w,
                              )
                            ]
                      ]
                ]
          ]

    pub gmail_provider-Quiet :
        (unicode : Unicode) → Quiet (gmail_provider prisma crypto token_key api unicode)
    unfolding gmail_provider list_candidate_messages apply_action
    gmail_provider-Quiet unicode = record {
      lists = λ id w. ground (arith, get_authorized_client-keys id w);
      applies = λ id message action w. ground (arith, get_authorized_client-keys id w);
    }

  pub create_from_gmail-keys :
      (user_id : Text) (tokens : GmailTokens) (w : World)
      → (EmailAccounts.create_from_gmail prisma crypto token_key user_id tokens w).1.keys ≡ w.keys
  unfolding EmailAccounts.create_from_gmail
  create_from_gmail-keys user_id tokens w = ground arith

  pub remove_email_account-keys :
      (user_id id : Text) (w : World)
      → (EmailAccounts.remove prisma crypto token_key user_id id w).1.keys ≡ w.keys
  unfolding EmailAccounts.remove
  remove_email_account-keys user_id id w = ground arith

pub Provider-cases :
    (p : ProviderType) → (p ≡ ProviderType.gmail) ⊎ ((name : Text) × (p ≡ ProviderType.other name))
Provider-cases gmail = inl refl
Provider-cases (ProviderType.other name) = inr (name, refl)

module _ (prisma : Prisma) where
  create_conditions-keys :
      (rule_id : Text) (cs : List ConditionData) (w : World)
      → (Rules.create_conditions prisma rule_id cs w).1.keys ≡ w.keys
  unfolding Rules.create_conditions
  create_conditions-keys rule_id [] w = refl
  create_conditions-keys rule_id (c ∷ cs) w =
      let created =
        prisma.conditions.create condition_clash (Rules.new_condition prisma rule_id c w.draws)
          w.db.conditions in
      elim (Written-cases created) [
        | inl (rows, e) ↦
            let w1 = record w { draws = w.draws + 1; db = with_conditions rows w.db } in
            ground (arith, create_conditions-keys rule_id cs w1)
        | inr (x, e) ↦ ground arith
      ]

  write_rule-keys : (d : RuleData) (w : World) → (Rules.write_rule prisma d w).1.keys ≡ w.keys
  unfolding Rules.write_rule
  write_rule-keys d w =
      let rule = Rules.new_rule prisma d w.draws w.now in
      elim (Written-cases (prisma.rules.create rule_clash rule w.db.rules)) [
        | inl (rows, e) ↦
            let w1 = record w { draws = w.draws + 1; db = with_rules rows w.db } in
            ground (arith, create_conditions-keys rule.id d.conditions w1)
        | inr (x, e) ↦ ground arith
      ]

  clear_conditions-keys :
      (id : Text) (cs : Option (List ConditionData)) (w : World)
      → ((Rules.clear_conditions prisma id cs w).0 ≡ ok tt)
        × ((Rules.clear_conditions prisma id cs w).1.keys ≡ w.keys)
  unfolding Rules.clear_conditions
  clear_conditions-keys id none w = (refl, refl)
  clear_conditions-keys id (some cs) w = (refl, refl)

  rewrite_rule-keys :
      (id : Text) (d : RuleChange) (w : World) → (Rules.rewrite_rule prisma id d w).1.keys ≡ w.keys
  unfolding Rules.rewrite_rule
  rewrite_rule-keys id d w =
      let w1 = (Rules.clear_conditions prisma id d.conditions w).1 in
      elim (Written-cases
        (prisma.rules.update rule_clash (λ r. r.id == id) (Rules.changed_rule d) w1.db.rules)) [
          | inl (rows, e) ↦ ground (
            arith,
            clear_conditions-keys id d.conditions w,
            create_conditions-keys id (or_else d.conditions [])
                (record w1 { db = with_rules rows w1.db }),
          )
          | inr (x, e) ↦ ground (arith, clear_conditions-keys id d.conditions w)
        ]

  -- A transaction leaves the keys alone if its function does.
  transaction-keys :
      {A : Type 0} (body : World → Result A × World) (w : World)
      → (body w).1.keys ≡ w.keys
      → (prisma.transaction World A db_of put_db body w).1.keys ≡ w.keys
  transaction-keys {A} body w h = elim (Result-cases (body w)) [
    | inl (a, v, e) ↦ ground (arith, prisma.transaction_commits World A db_of put_db body w e, e)
    | inr (x, v, e) ↦ ground (arith, prisma.transaction_rolls_back World A db_of put_db body w e, e)
  ]

  pub create_rule-keys :
      (user_id : Text) (d : RuleData) (w : World)
      → (Rules.create prisma user_id d w).1.keys ≡ w.keys
  unfolding Rules.create
  create_rule-keys user_id d w =
      ground (arith, transaction-keys (Rules.write_rule prisma d) w (write_rule-keys d w))

  pub update_rule-keys :
      (user_id id : Text) (d : RuleChange) (w : World)
      → (Rules.update prisma user_id id d w).1.keys ≡ w.keys
  unfolding Rules.update Rules.find_owned
  update_rule-keys user_id id d w =
      ground (arith, transaction-keys (Rules.rewrite_rule prisma id d) w (rewrite_rule-keys id d w))

  pub remove_rule-keys :
      (user_id id : Text) (w : World) → (Rules.remove prisma user_id id w).1.keys ≡ w.keys
  unfolding Rules.remove Rules.find_owned
  remove_rule-keys user_id id w = ground arith

  pub exclude-keys : (user_id id : Text) (w : World) → (exclude prisma user_id id w).1.keys ≡ w.keys
  unfolding exclude find_owned set_status
  exclude-keys user_id id w = ground arith

  perform-keys :
      (box : MailProvider) (c : EmailCandidate) (a : EmailAccount) (action : MailAction) (w : World)
      → Quiet box
      → (perform prisma box c a action w).1.keys ≡ w.keys
  unfolding perform Provider.get
  perform-keys box c a action w q = elim (Provider-cases a.provider_type) [
    | inl same ↦ ground (arith, q.applies c.email_account_id c.external_message_id action w)
    | inr (name, other) ↦ ground arith
  ]

  set_status-keys :
      (id : Text) (s : CandidateStatus) (w : World) → (set_status prisma id s w).1.keys ≡ w.keys
  unfolding set_status
  set_status-keys id s w = ground arith

  find_owned-same : (user_id id : Text) (w : World) → (find_owned prisma user_id id w).1 ≡ w
  unfolding find_owned
  find_owned-same user_id id w = ground arith

  pub approve-keys :
      (box : MailProvider) (user_id id : Text) (w : World)
      → Quiet box
      → (approve prisma box user_id id w).1.keys ≡ w.keys
  unfolding approve
  approve-keys box user_id id w q = elim (Result-cases (find_owned prisma user_id id w)) [
    | inr (x, v, e) ↦ ground (arith, find_owned-same user_id id w, e)
    | inl (c, v, e) ↦
        let same : v ≡ w = ground (arith, find_owned-same user_id id w, e) in
        elim (Option-cases (prisma.rules.find_first (λ r. r.id == c.rule_id) v.db.rules)) [
          | inl missing ↦ ground (arith, e)
          | inr (r, there) ↦
              elim (Option-cases (
                prisma.email_accounts.find_first (λ a. a.id == c.email_account_id)
                  v.db.email_accounts)) [
                    | inl missing ↦ ground (arith, e)
                    | inr (a, there_too) ↦ elim (Option-cases (mail_action prisma r.action_type)) [
                      | inl quiet ↦ ground (arith, e, set_status-keys id approved v)
                      | inr (action, asked) ↦ ground (
                        arith,
                        e,
                        perform-keys box c a action v q,
                        set_status-keys id approved (perform prisma box c a action v).1,
                      )
                    ]
                  ]
        ]
  ]
