-- ===== src/Mail/Candidates.antt =====
-- mail/candidates/candidates.service.ts and scan-scheduler.service.ts: scanning for candidates,
-- approving and excluding them. Logging is left out.
pub mod Count
pub mod Scan
pub mod Complete
pub mod Decide
use my_account_controller.Common.{
  ℕ, suc, ◌+◌, Bool, true, false, ◌&&◌, ◌||◌, Option, none, some, List, [], ◌∷◌, map, Text, ◌==◌,
  is_some, Error, Result, ok, err, Exec, p2002, p2025, not_found, candidate_missing, or_throw,
  throw, pure, gets, catching, from_result, modify, ◌>>=◌, ◌>>◌, if◌then◌else◌,
}
use my_account_controller.Database.{
  Db, Prisma, EmailAccount, EmailRule, EmailCandidate, ActionType, CandidateStatus, pending,
  approved, excluded, candidate_clash, with_candidates, delete_candidate, spam_candidate, important,
}
use my_account_controller.Mail.Provider
use my_account_controller.Mail.Provider.{MailProvider, RawMailMessage}
use my_account_controller.Mail.Matcher.{Unicode, RuleWithConditions, message_matches_rule}
use my_account_controller.Mail.Rules.{account_is_owned, with_its_conditions}
use my_account_controller.World.{World, Action, MailAction, delete, spam, draw, store}

abbrev pub is_pending : CandidateStatus → Bool
is_pending pending = true
is_pending s = false

abbrev pub is_approved : CandidateStatus → Bool
is_approved approved = true
is_approved s = false

abbrev pub is_important : ActionType → Bool
is_important important = true
is_important a = false

-- The three counters of a scan beside the server: what was counted before an exception stays.
pub record ScanState : Type 0 where
  pub world : World
  pub scanned_accounts : ℕ
  pub created_candidates : ℕ
  pub failed_accounts : ℕ

abbrev pub Scanning : Type 0 → Type 0
Scanning A = Exec ScanState A

abbrev pub lift : {A : Type 0} → Action A → Scanning A
lift m s = let (r, w) = m s.world in (r, record s { world = w })

abbrev pub count_scanned : Scanning (Unit {0})
count_scanned = modify (λ s. record s { scanned_accounts = s.scanned_accounts + 1 })

abbrev pub count_created : Scanning (Unit {0})
count_created = modify (λ s. record s { created_candidates = s.created_candidates + 1 })

abbrev pub count_failed : Scanning (Unit {0})
count_failed = modify (λ s. record s { failed_accounts = s.failed_accounts + 1 })

-- `if (err.code !== 'P2002') throw err`
unfoldable pub ignore_duplicate : Error → Scanning (Unit {0})
ignore_duplicate (Error.prisma p2002) = pure tt
ignore_duplicate e = throw e

module _ (prisma : Prisma) where
  -- `findPending`: the candidates, each with the action of its rule
  unfoldable pub find_pending : Text → Action (List (EmailCandidate × Option EmailRule))
  find_pending user_id = gets (λ w.
      map (λ c. (c, prisma.rules.find_first (λ r. r.id == c.rule_id) w.db.rules))
        (prisma.candidates.find_desc (λ c. c.received_at)
          (λ c. is_pending c.status && account_is_owned prisma w.db user_id c.email_account_id)
          w.db.candidates))

  abbrev pub rule_is_important : Db → Text → Bool
  rule_is_important db rule_id =
      is_some
        (prisma.rules.find_first (λ r. r.id == rule_id && is_important r.action_type) db.rules)

  -- `importantSummary`: `groupBy` and the map of its counts, read at each account of the user
  unfoldable pub important_count : Db → Text → Text → ℕ
  important_count db user_id email_account_id =
      prisma.candidates.count
        (λ c.
          c.email_account_id == email_account_id
          && (is_approved c.status
              && (rule_is_important db c.rule_id
                  && account_is_owned prisma db user_id c.email_account_id)))
        db.candidates

  unfoldable pub important_summary : Text → Action (List (Text × Text × ℕ))
  important_summary user_id = gets (λ w.
      map (λ a. (a.id, a.display_name, important_count w.db user_id a.id))
        (prisma.email_accounts.find_many (λ a. a.user_id == user_id) w.db.email_accounts))

  unfoldable pub new_candidate : EmailRule → Text → RawMailMessage → ℕ → ℕ → EmailCandidate
  new_candidate rule email_account_id message received_at id = record {
    id = prisma.uuid id;
    rule_id = rule.id;
    email_account_id = email_account_id;
    external_message_id = message.external_message_id;
    sender = message.sender;
    subject = message.subject;
    received_at = received_at;
    status = pending;
    processed_at = none;
  }

  -- A date that is not valid fits no column: Prisma throws before it asks the database.
  unfoldable pub create_candidate : EmailRule → Text → RawMailMessage → Action (Unit {0})
  create_candidate rule email_account_id message = elim message.received_at [
    | none ↦ throw Error.invalid
    | some t ↦ do
      d ← draw
      store
          (λ w.
            prisma.candidates.create candidate_clash
              (new_candidate rule email_account_id message t d) w.db.candidates)
          with_candidates
  ]

  module _ (unicode : Unicode) where
    -- The inner loop: one message against one rule.
    unfoldable pub scan_rule : Text → RawMailMessage → RuleWithConditions → Scanning (Unit {0})
    unfolding ignore_duplicate
    scan_rule email_account_id message rule =
        if message_matches_rule unicode message rule
        then catching (lift (create_candidate rule.rule email_account_id message) >> count_created)
            ignore_duplicate
        else pure tt

    unfoldable pub scan_rules :
        Text → RawMailMessage → List RuleWithConditions → Scanning (Unit {0})
    scan_rules email_account_id message [] = pure tt
    scan_rules email_account_id message (rule ∷ rules) =
        scan_rule email_account_id message rule >> scan_rules email_account_id message rules

    unfoldable pub scan_messages :
        Text → List RuleWithConditions → List RawMailMessage → Scanning (Unit {0})
    scan_messages email_account_id rules [] = pure tt
    scan_messages email_account_id rules (message ∷ messages) =
        scan_rules email_account_id message rules >> scan_messages email_account_id rules messages

    unfoldable pub active_rules : Db → Text → List RuleWithConditions
    active_rules db email_account_id = map (with_its_conditions prisma db) (
        prisma.rules.find_many (λ r. r.email_account_id == email_account_id && r.is_active)
          db.rules)

    module _ (gmail : MailProvider) where
      -- With no active rule the account is passed over, and its mailbox is not asked.
      unfoldable pub scan_with : Text → MailProvider → List RuleWithConditions → Scanning (Unit {0})
      scan_with email_account_id provider [] = pure tt
      scan_with email_account_id provider (rule ∷ rules) = do
        messages ← lift (provider.list_candidate_messages email_account_id)
        count_scanned
        scan_messages email_account_id (rule ∷ rules) messages

      -- The body of the `try`.
      unfoldable pub scan_account : EmailAccount → Scanning (Unit {0})
      unfolding scan_with
      scan_account account = do
        provider ← from_result (Provider.get gmail account.provider_type)
        rules ← gets (λ s. active_rules s.world.db account.id)
        scan_with account.id provider rules

      -- `scanAccounts`: an account that throws is counted, and the next one is scanned.
      unfoldable pub scan_accounts : List EmailAccount → Scanning (Unit {0})
      scan_accounts [] = pure tt
      scan_accounts (account ∷ accounts) =
          catching (scan_account account) (λ e. count_failed) >> scan_accounts accounts

      abbrev pub start : World → ScanState
      start w = record {
        world = w;
        scanned_accounts = 0;
        created_candidates = 0;
        failed_accounts = 0;
      }

      unfoldable pub scan : Text → World → Result (Unit {0}) × ScanState
      scan user_id w =
          scan_accounts
            (prisma.email_accounts.find_many (λ a. a.user_id == user_id && a.is_active)
              w.db.email_accounts)
            (start w)

      unfoldable pub scan_all : World → Result (Unit {0}) × ScanState
      scan_all w =
          scan_accounts (prisma.email_accounts.find_many (λ a. a.is_active) w.db.email_accounts)
            (start w)

  unfoldable pub find_owned : Text → Text → Action EmailCandidate
  find_owned user_id id = do
    found ← gets (λ w.
        prisma.candidates.find_first
          (λ c. c.id == id && account_is_owned prisma w.db user_id c.email_account_id)
          w.db.candidates)
    or_throw found (not_found candidate_missing)

  -- What the action type of the rule asks of the mailbox.
  unfoldable pub mail_action : ActionType → Option MailAction
  mail_action delete_candidate = some delete
  mail_action spam_candidate = some spam
  mail_action important = none
  mail_action (ActionType.other name) = none

  unfoldable pub perform :
      MailProvider → EmailCandidate → EmailAccount → MailAction → Action (Unit {0})
  perform gmail c account action = do
    provider ← from_result (Provider.get gmail account.provider_type)
    provider.apply_action c.email_account_id c.external_message_id action

  unfoldable pub set_status : Text → CandidateStatus → Action (Unit {0})
  set_status id status =
      store
        (λ w.
          prisma.candidates.update candidate_clash (λ c. c.id == id)
            (λ c. record c { status = status; processed_at = some w.now }) w.db.candidates)
        with_candidates

  -- The rule and the account that the candidate refers to are there by its foreign keys.
  unfoldable pub approve : MailProvider → Text → Text → Action (Unit {0})
  unfolding find_owned set_status
  approve gmail user_id id = do
    c ← find_owned user_id id
    found_rule ← gets (λ w. prisma.rules.find_first (λ r. r.id == c.rule_id) w.db.rules)
    rule ← or_throw found_rule (Error.prisma p2025)
    found_account ← gets (λ w.
        prisma.email_accounts.find_first (λ a. a.id == c.email_account_id) w.db.email_accounts)
    account ← or_throw found_account (Error.prisma p2025)
    elim (mail_action rule.action_type) [
      | none ↦ pure tt
      | some action ↦ perform gmail c account action
    ]
    set_status id approved

  unfoldable pub exclude : Text → Text → Action (Unit {0})
  unfolding find_owned set_status
  exclude user_id id = do c ← find_owned user_id id; set_status id excluded
