-- ===== src/Mail/Candidates/Scan.antt =====
-- One round of the loops of a scan over messages and rules
-- (mail/candidates/candidates.service.ts).
use my_account_controller.Common.{
  ℕ, ◌+◌, ◌≡◌, refl, sym, ◌∙◌, ap, true, false, none, some, Text, Result, ok, err, invalid, arith,
  Memᴰ, inl, inr, ◌⊎◌,
}
use my_account_controller.Database.{EmailCandidate, Prisma, candidate_clash, pending}
use my_account_controller.Mail.Provider.{RawMailMessage}
use my_account_controller.Mail.Matcher.{Unicode, RuleWithConditions, message_matches_rule}
use my_account_controller.Mail.Candidates.{ScanState, new_candidate, scan_rule}
use my_account_controller.Mail.Candidates.Count.{HasCandidate, FreshIds, scan_rule_lem}

module _ (prisma : Prisma) (unicode : Unicode) (account : Text) where
  -- What a part of a scan keeps: the candidates that were there, the two other counters, and that
  -- the ids to come are new.
  pub record Grows (s s' : ScanState) : Type 0 where
    pub kept : (c : EmailCandidate) → Memᴰ c s.world.db.candidates → Memᴰ c s'.world.db.candidates
    pub added :
        (c : EmailCandidate)
        → Memᴰ c s'.world.db.candidates
        → Memᴰ c s.world.db.candidates ⊎ (c.status ≡ pending)
    pub fresh : FreshIds prisma unicode account s'.world
    pub scanned : s'.scanned_accounts ≡ s.scanned_accounts
    pub failed : s'.failed_accounts ≡ s.failed_accounts

  abbrev pub IsDated : RawMailMessage → Type 0
  IsDated message = (t : ℕ) × (message.received_at ≡ some t)

  -- The pair has its candidate, and the date of the message is valid.
  abbrev pub Has : ScanState → RawMailMessage → RuleWithConditions → Type 0
  Has s message rule =
      HasCandidate prisma unicode account s.world.db.candidates rule.rule.id
        message.external_message_id
      × IsDated message

  -- A part of a scan ends in a state: it is through, or Prisma's validation error ends it.
  abbrev pub Ends : Result (Unit {0}) × ScanState → ScanState → Type 0 → Type 0 → Type 0
  Ends out s' Done Undated = ((out ≡ (ok tt, s')) × Done) ⊎ ((out ≡ (err invalid, s')) × Undated)

  pub Grows-refl : (s : ScanState) → FreshIds prisma unicode account s.world → Grows s s
  Grows-refl s fresh = record {
    kept = λ c m. m;
    added = λ c m. inl m;
    fresh = fresh;
    scanned = refl;
    failed = refl;
  }

  pub Grows-trans : (s t u : ScanState) → Grows s t → Grows t u → Grows s u
  Grows-trans s t u g h = record {
    kept = λ c m. h.kept c (g.kept c m);
    added = λ c m. elim (h.added c m) [ inl n ↦ g.added c n | inr e ↦ inr e ];
    fresh = h.fresh;
    scanned = h.scanned ∙ g.scanned;
    failed = h.failed ∙ g.failed;
  }

  pub Has-Grows :
      (s t : ScanState) (message : RawMailMessage) (rule : RuleWithConditions)
      → Grows s t
      → Has s message rule
      → Has t message rule
  Has-Grows s t message rule g ((c, m, a, b), dated) = ((c, g.kept c m, a, b), dated)

  clash_means :
      (c q : EmailCandidate)
      → candidate_clash c q ≡ true
      → (q.id ≡ c.id) ⊎ ((q.rule_id ≡ c.rule_id) × (q.external_message_id ≡ c.external_message_id))
  unfolding candidate_clash
  clash_means c q h = ground arith

  pub same_pair_clash :
      (c q : EmailCandidate)
      → q.rule_id ≡ c.rule_id
      → q.external_message_id ≡ c.external_message_id
      → candidate_clash c q ≡ false
      → ⊥
  unfolding candidate_clash
  same_pair_clash c q a b h = ground arith

  module _ (distinct : (m n : ℕ) → prisma.uuid m ≡ prisma.uuid n → m ≡ n) where
    pub round :
        (message : RawMailMessage) (rule : RuleWithConditions) (s : ScanState)
        → FreshIds prisma unicode account s.world
        → (s' : ScanState) × Grows s s'
          × Ends
              (scan_rule prisma unicode account message rule s)
              s'
              (message_matches_rule unicode message rule ≡ true → Has s' message rule)
              ((message_matches_rule unicode message rule ≡ true) × (message.received_at ≡ none))
    unfolding new_candidate
    round message rule s fresh = elim (scan_rule_lem prisma unicode account message rule s) [
      | inl (differs, e) ↦ (s, Grows-refl s fresh, inl (e, λ h. absurd (ground arith)))
      | inr (matches, inr (undated, e)) ↦ (s, Grows-refl s fresh, inr (e, (matches, undated)))
      | inr (matches, inl (t, dated, inl (rows, stored, e))) ↦
          let c = new_candidate prisma rule.rule account message t s.world.draws in
          let adds = prisma.candidates.create_adds candidate_clash c s.world.db.candidates stored in
          (
            record s {
              world = record s.world {
                draws = s.world.draws + 1;
                db = record s.world.db { candidates = rows };
              };
              created_candidates = s.created_candidates + 1;
            },
            record {
              kept = λ q m.
                  prisma.candidates.create_keeps candidate_clash c s.world.db.candidates stored m;
              added = λ q m.
                  elim (prisma.candidates.create_only candidate_clash c s.world.db.candidates stored
                    m) [
                      | inl same ↦ inr (ap (λ (x : EmailCandidate). x.status) same)
                      | inr old ↦ inl old
                    ];
              fresh = λ n later q m.
                  elim (prisma.candidates.create_only candidate_clash c s.world.db.candidates stored
                    m) [
                      | inl same ↦ λ id.
                          let k =
                            distinct s.world.draws n
                              (sym (ap (λ (x : EmailCandidate). x.id) same) ∙ id) in
                          omega arith
                      | inr old ↦ fresh n (omega arith) q old
                    ];
              scanned = refl;
              failed = refl;
            },
            inl (e, λ h. ((c, adds, refl, refl), (t, dated))),
          )
      | inr (matches, inl (t, dated, inr (failed, e))) ↦
          let c = new_candidate prisma rule.rule account message t s.world.draws in
          let (_, (q, m, clash)) =
            prisma.candidates.create_refused candidate_clash c s.world.db.candidates failed in
          (
            record s {
              world = record s.world { draws = s.world.draws + 1 };
              created_candidates = s.created_candidates + 0;
            },
            record {
              kept = λ q m. m;
              added = λ q m. inl m;
              fresh = λ n later x k. fresh n (omega arith) x k;
              scanned = refl;
              failed = refl;
            },
            inl (
              e,
              λ h. elim (clash_means c q clash) [
                | inl id ↦ absurd (fresh s.world.draws (omega arith) q m id)
                | inr (a, b) ↦ ((q, m, a, b), (t, dated))
              ],
            ),
          )
    ]
