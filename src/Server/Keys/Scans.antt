-- ===== src/Server/Keys/Scans.antt =====
-- A scan (apps/api/src/mail/candidates) and the key store.
use my_account_controller.Common.{
  ◌≡◌, refl, ◌+◌, arith, List, [], ◌∷◌, Text, Error, Result-cases, Bool-cases, Option-cases, inl,
  inr, p2002, p2003, p2025,
}
use my_account_controller.Database.{Prisma, EmailRule, EmailAccount}
use my_account_controller.Mail.Provider.{MailProvider, RawMailMessage}
use my_account_controller.Mail.Provider
use my_account_controller.Mail.Matcher.{Unicode, RuleWithConditions, message_matches_rule}
use my_account_controller.Mail.Candidates.{
  ScanState, ignore_duplicate, create_candidate, scan_rule, scan_rules, scan_messages, scan_with,
  scan_account, scan_accounts, active_rules,
}
use my_account_controller.Server.Keys.Mail.{Quiet, Provider-cases}
use my_account_controller.World.{World}

module _ (prisma : Prisma) where
  create_candidate-keys :
      (rule : EmailRule) (id : Text) (m : RawMailMessage) (w : World)
      → (create_candidate prisma rule id m w).1.keys ≡ w.keys
  unfolding create_candidate
  create_candidate-keys rule id m w = elim (Option-cases m.received_at) [
    | inl undated ↦ ground (arith, undated)
    | inr (t, dated) ↦ ground (arith, dated)
  ]

  ignore_duplicate-world : (e : Error) (s : ScanState) → (ignore_duplicate e s).1 ≡ s
  unfolding ignore_duplicate
  ignore_duplicate-world (Error.prisma p2002) s = refl
  ignore_duplicate-world (Error.prisma p2003) s = refl
  ignore_duplicate-world (Error.prisma p2025) s = refl
  ignore_duplicate-world (Error.bad_request m) s = refl
  ignore_duplicate-world (Error.unauthorized m) s = refl
  ignore_duplicate-world (Error.not_found m) s = refl
  ignore_duplicate-world (Error.conflict m) s = refl
  ignore_duplicate-world (Error.plain m) s = refl
  ignore_duplicate-world (Error.api n m) s = refl
  ignore_duplicate-world Error.invalid s = refl
  ignore_duplicate-world Error.cipher s = refl
  ignore_duplicate-world Error.json s = refl
  ignore_duplicate-world Error.remote s = refl

  module _ (unicode : Unicode) where
    scan_rule-keys :
        (id : Text) (m : RawMailMessage) (r : RuleWithConditions) (s : ScanState)
        → (scan_rule prisma unicode id m r s).1.world.keys ≡ s.world.keys
    unfolding scan_rule
    scan_rule-keys id m r s = elim (Bool-cases (message_matches_rule unicode m r)) [
      | inr other ↦ ground arith
      | inl matching ↦ elim (Result-cases (create_candidate prisma r.rule id m s.world)) [
        | inl (u, w, e) ↦ ground (arith, e, create_candidate-keys r.rule id m s.world)
        | inr (x, w, e) ↦ ground (
          arith,
          e,
          create_candidate-keys r.rule id m s.world,
          ignore_duplicate-world x (record s { world = w }),
        )
      ]
    ]

    scan_rules-keys :
        (id : Text) (m : RawMailMessage) (rs : List RuleWithConditions) (s : ScanState)
        → (scan_rules prisma unicode id m rs s).1.world.keys ≡ s.world.keys
    unfolding scan_rules
    scan_rules-keys id m [] s = refl
    scan_rules-keys id m (r ∷ rs) s =
        let t = (scan_rule prisma unicode id m r s).1 in
        ground (arith, scan_rule-keys id m r s, scan_rules-keys id m rs t)

    scan_messages-keys :
        (id : Text) (rs : List RuleWithConditions) (ms : List RawMailMessage) (s : ScanState)
        → (scan_messages prisma unicode id rs ms s).1.world.keys ≡ s.world.keys
    unfolding scan_messages
    scan_messages-keys id rs [] s = refl
    scan_messages-keys id rs (m ∷ ms) s =
        let t = (scan_rules prisma unicode id m rs s).1 in
        ground (arith, scan_rules-keys id m rs s, scan_messages-keys id rs ms t)

    module _ (box : MailProvider) (q : Quiet box) where
      scan_with-keys :
          (id : Text) (rs : List RuleWithConditions) (s : ScanState)
          → (scan_with prisma unicode box id box rs s).1.world.keys ≡ s.world.keys
      unfolding scan_with
      scan_with-keys id [] s = refl
      scan_with-keys id (r ∷ rs) s = elim (Result-cases (box.list_candidate_messages id s.world)) [
        | inl (ms, w, e) ↦ ground (
          arith,
          q.lists id s.world,
          scan_messages-keys id (r ∷ rs) ms
              (record s { world = w; scanned_accounts = s.scanned_accounts + 1 }),
        )
        | inr (x, w, e) ↦ ground (arith, q.lists id s.world)
      ]

      scan_account-keys :
          (a : EmailAccount) (s : ScanState)
          → (scan_account prisma unicode box a s).1.world.keys ≡ s.world.keys
      unfolding scan_account Provider.get
      scan_account-keys a s = elim (Provider-cases a.provider_type) [
        | inr (name, other) ↦ ground arith
        | inl same ↦
            ground (arith, scan_with-keys a.id (active_rules prisma unicode s.world.db a.id) s)
      ]

      pub scan_accounts-keys :
          (accounts : List EmailAccount) (s : ScanState)
          → (scan_accounts prisma unicode box accounts s).1.world.keys ≡ s.world.keys
      unfolding scan_accounts
      scan_accounts-keys [] s = refl
      scan_accounts-keys (a ∷ accounts) s =
          elim (Result-cases (scan_account prisma unicode box a s)) [
            | inl (u, t, e) ↦
                ground (arith, e, scan_account-keys a s, scan_accounts-keys accounts t)
            | inr (x, t, e) ↦ ground (
              arith,
              e,
              scan_account-keys a s,
              scan_accounts-keys accounts (record t { failed_accounts = t.failed_accounts + 1 }),
            )
          ]
