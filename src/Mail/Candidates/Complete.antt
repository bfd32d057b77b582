-- ===== src/Mail/Candidates/Complete.antt =====
-- The candidates after the loops of a scan (mail/candidates/candidates.service.ts).
use my_account_controller.Common.{
  ℕ, ◌+◌, ◌≡◌, refl, ◌∙◌, true, none, List, [], ◌∷◌, ok, arith, Memᴰ, head, tail, inl, inr,
}
use my_account_controller.Database.{Prisma, candidate_clash}
use my_account_controller.Mail.Provider.{RawMailMessage}
use my_account_controller.Mail.Matcher.{Unicode, RuleWithConditions, message_matches_rule}
use my_account_controller.Mail.Candidates.{
  ScanState, new_candidate, scan_rule, scan_rules, scan_messages,
}
use my_account_controller.Mail.Candidates.Count.{FreshIds, scan_rule_lem}
use my_account_controller.Mail.Candidates.Scan.{
  Grows, Has, Ends, Grows-refl, Grows-trans, Has-Grows, round, same_pair_clash,
}
use my_account_controller.Common.{Text}

module _ (prisma : Prisma) (unicode : Unicode) (account : Text) where
  -- Each rule that matches the message has its candidate, and then the date is valid.
  abbrev pub Covered : ScanState → RawMailMessage → List RuleWithConditions → Type 0
  Covered s message rules =
      (rule : RuleWithConditions)
      → Memᴰ rule rules
      → message_matches_rule unicode message rule ≡ true
      → Has prisma unicode account s message rule

  abbrev pub AllCovered : ScanState → List RuleWithConditions → List RawMailMessage → Type 0
  AllCovered s rules messages =
      (message : RawMailMessage) → Memᴰ message messages → Covered s message rules

  -- A rule matches a message whose date is not valid.
  abbrev pub UndatedMatch : RawMailMessage → List RuleWithConditions → Type 0
  UndatedMatch message rules =
      (rule : RuleWithConditions) × Memᴰ rule rules
      × (message_matches_rule unicode message rule ≡ true)
      × (message.received_at ≡ none)

  abbrev pub AnyUndated : List RuleWithConditions → List RawMailMessage → Type 0
  AnyUndated rules messages =
      (message : RawMailMessage) × Memᴰ message messages × UndatedMatch message rules

  Covered-cons :
      (s : ScanState) (message : RawMailMessage) (rule : RuleWithConditions)
      (rules : List RuleWithConditions)
      → (message_matches_rule unicode message rule ≡ true
          → Has prisma unicode account s message rule)
      → Covered s message rules
      → Covered s message (rule ∷ rules)
  Covered-cons s message rule rules h t x (head e) k = here x e k
    where
      here :
          (x : RuleWithConditions)
          → x ≡ rule
          → message_matches_rule unicode message x ≡ true
          → Has prisma unicode account s message x
      here x e k = rw e (h (rw e at k))
  Covered-cons s message rule rules h t x (tail m) k = t x m k

  AllCovered-cons :
      (s : ScanState) (message : RawMailMessage) (rules : List RuleWithConditions)
      (messages : List RawMailMessage)
      → Covered s message rules
      → AllCovered s rules messages
      → AllCovered s rules (message ∷ messages)
  AllCovered-cons s message rules messages h t x (head e) = rw e h
  AllCovered-cons s message rules messages h t x (tail m) = t x m

  module _ (distinct : (m n : ℕ) → prisma.uuid m ≡ prisma.uuid n → m ≡ n) where
    scan_rules_covers :
        (message : RawMailMessage) (rules : List RuleWithConditions) (s : ScanState)
        → FreshIds prisma unicode account s.world
        → (s' : ScanState) × Grows prisma unicode account s s'
          × Ends prisma unicode account
              (scan_rules prisma unicode account message rules s)
              s'
              (Covered s' message rules)
              (UndatedMatch message rules)
    unfolding scan_rules
    scan_rules_covers message [] s fresh =
        (s, Grows-refl prisma unicode account s fresh, inl (refl, λ rule m h. elim m [ ]))
    scan_rules_covers message (rule ∷ rules) s fresh =
        let (t, g, first) = round prisma unicode account distinct message rule s fresh in
        elim first [
          | inr (e, (matches, undated)) ↦
              (t, g, inr (ground (arith, e), (rule, head refl, matches, undated)))
          | inl (e, has) ↦
              let (u, g', rest) = scan_rules_covers message rules t g.fresh in
              (
                u,
                Grows-trans prisma unicode account s t u g g',
                elim rest [
                  | inr (e', (x, m, bad, undated)) ↦
                      inr (ground (arith, e, e'), (x, tail m, bad, undated))
                  | inl (e', covered) ↦ inl (
                    ground (arith, e, e'),
                    Covered-cons u message rule rules
                        (λ h. Has-Grows prisma unicode account t u message rule g' (has h)) covered,
                  )
                ],
              )
        ]

    -- The loops over the messages and the rules of an account keep every candidate, add pending
    -- ones only, and count no account. Either they go through, and each message and each rule that
    -- matches it has its candidate; or they end with Prisma's validation error, and a rule matches
    -- a message whose date is not valid. The ids that are drawn are distinct and new.
    pub scan_messages_covers :
        (rules : List RuleWithConditions) (messages : List RawMailMessage) (s : ScanState)
        → FreshIds prisma unicode account s.world
        → (s' : ScanState) × Grows prisma unicode account s s'
          × Ends prisma unicode account
              (scan_messages prisma unicode account rules messages s)
              s'
              (AllCovered s' rules messages)
              (AnyUndated rules messages)
    unfolding scan_messages
    scan_messages_covers rules [] s fresh =
        (s, Grows-refl prisma unicode account s fresh, inl (refl, λ message m. elim m [ ]))
    scan_messages_covers rules (message ∷ messages) s fresh =
        let (t, g, first) = scan_rules_covers message rules s fresh in
        elim first [
          | inr (e, bad) ↦ (t, g, inr (ground (arith, e), (message, head refl, bad)))
          | inl (e, covered) ↦
              let (u, g', rest) = scan_messages_covers rules messages t g.fresh in
              (
                u,
                Grows-trans prisma unicode account s t u g g',
                elim rest [
                  | inr (e', (x, m, bad)) ↦ inr (ground (arith, e, e'), (x, tail m, bad))
                  | inl (e', all_covered) ↦ inl (
                    ground (arith, e, e'),
                    AllCovered-cons u message rules messages
                        (λ rule m h.
                          Has-Grows prisma unicode account t u message rule g' (covered rule m h))
                        all_covered,
                  )
                ],
              )
        ]

  -- Nothing is counted and no candidate changes.
  abbrev pub Unchanged : ScanState → ScanState → Type 0
  Unchanged s s' =
      (s'.world.db ≡ s.world.db)
      × (s'.created_candidates ≡ s.created_candidates)
      × (s'.scanned_accounts ≡ s.scanned_accounts)
      × (s'.failed_accounts ≡ s.failed_accounts)

  round_again :
      (message : RawMailMessage) (rule : RuleWithConditions) (s : ScanState)
      → (message_matches_rule unicode message rule ≡ true
          → Has prisma unicode account s message rule)
      → (s' : ScanState) × (scan_rule prisma unicode account message rule s ≡ (ok tt, s'))
        × Unchanged s s'
  unfolding new_candidate
  round_again message rule s has = elim (scan_rule_lem prisma unicode account message rule s) [
    | inl (differs, e) ↦ (s, e, (refl, refl, refl, refl))
    | inr (matches, inr (undated, e)) ↦
        let (q, (t, dated)) = has matches in absurd (ground (arith, undated, dated))
    | inr (matches, inl (t, dated, inl (rows, stored, e))) ↦
        let c = new_candidate prisma rule.rule account message t s.world.draws in
        let ((q, m, a, b), d) = has matches in
        let apart =
          prisma.candidates.create_fits candidate_clash c s.world.db.candidates stored q m in
        absurd (same_pair_clash prisma unicode account c q a b apart)
    | inr (matches, inl (t, dated, inr (failed, e))) ↦ (
      record s {
        world = record s.world { draws = s.world.draws + 1 };
        created_candidates = s.created_candidates + 0;
      },
      e,
      (refl, omega arith, refl, refl),
    )
  ]

  Covered-Unchanged :
      (s t : ScanState) (message : RawMailMessage) (rules : List RuleWithConditions)
      → Unchanged s t
      → Covered s message rules
      → Covered t message rules
  Covered-Unchanged s t message rules (same, a0, a1, a2) covered rule m h =
      let ((c, n, a, b), dated) = covered rule m h in ((c, rw same n, a, b), dated)

  scan_rules_again :
      (message : RawMailMessage) (rules : List RuleWithConditions) (s : ScanState)
      → Covered s message rules
      → (s' : ScanState) × (scan_rules prisma unicode account message rules s ≡ (ok tt, s'))
        × Unchanged s s'
  unfolding scan_rules
  scan_rules_again message [] s covered = (s, refl, (refl, refl, refl, refl))
  scan_rules_again message (rule ∷ rules) s covered =
      let (t, e, g) = round_again message rule s (covered rule (head refl)) in
      let (u, e', g') =
        scan_rules_again message rules t
          (Covered-Unchanged s t message rules g (λ x m. covered x (tail m))) in
      (u, ground (arith, e, e'), (g'.0 ∙ g.0, g'.1 ∙ g.1, g'.2 ∙ g.2, g'.3 ∙ g.3))

  -- A scan of messages and rules that are covered already, where the dates of the messages that
  -- match are valid, throws nothing, creates nothing, and leaves the database and the counters as
  -- they are.
  pub scan_messages_again :
      (rules : List RuleWithConditions) (messages : List RawMailMessage) (s : ScanState)
      → AllCovered s rules messages
      → (s' : ScanState) × (scan_messages prisma unicode account rules messages s ≡ (ok tt, s'))
        × Unchanged s s'
  unfolding scan_messages
  scan_messages_again rules [] s covered = (s, refl, (refl, refl, refl, refl))
  scan_messages_again rules (message ∷ messages) s covered =
      let (t, e, g) = scan_rules_again message rules s (covered message (head refl)) in
      let (u, e', g') =
        scan_messages_again rules messages t
          (λ x m. Covered-Unchanged s t x rules g (covered x (tail m))) in
      (u, ground (arith, e, e'), (g'.0 ∙ g.0, g'.1 ∙ g.1, g'.2 ∙ g.2, g'.3 ∙ g.3))
