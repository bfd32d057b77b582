-- ===== src/Mail/Candidates/Count.antt =====
-- What one round of a scan does to the candidates and the counters
-- (mail/candidates/candidates.service.ts).
use my_account_controller.Common.{
  ℕ, ◌+◌, ◌≤◌, ◌≡◌, ◌≢◌, true, false, none, some, List, Text, ok, err, invalid, arith, Memᴰ, inl,
  inr, ◌⊎◌, Bool-cases, Option-cases, p2002,
}
use my_account_controller.Database.{
  EmailCandidate, Prisma, Written, written, refused, Written-cases, candidate_clash,
}
use my_account_controller.Mail.Provider.{RawMailMessage}
use my_account_controller.Mail.Matcher.{Unicode, RuleWithConditions, message_matches_rule}
use my_account_controller.Mail.Candidates.{ScanState, new_candidate, create_candidate, scan_rule}
use my_account_controller.World.{World}

module _ (prisma : Prisma) (unicode : Unicode) (account : Text) where
  -- There is a candidate for the rule and the message.
  abbrev pub HasCandidate : List EmailCandidate → Text → Text → Type 0
  HasCandidate rows rule_id message_id =
      (c : EmailCandidate) × Memᴰ c rows
      × (c.rule_id ≡ rule_id)
      × (c.external_message_id ≡ message_id)

  -- The ids that are still to be drawn belong to no candidate.
  abbrev pub FreshIds : World → Type 0
  FreshIds w =
      (n : ℕ) → w.draws ≤ n → (c : EmailCandidate) → Memᴰ c w.db.candidates → c.id ≢ prisma.uuid n

  abbrev creation : ScanState → RawMailMessage → RuleWithConditions → ℕ → Written EmailCandidate
  creation s message rule t =
      prisma.candidates.create candidate_clash
        (new_candidate prisma rule.rule account message t s.world.draws) s.world.db.candidates

  -- The state after a round, by what the database answered.
  abbrev after_round : ScanState → List EmailCandidate → ℕ → ScanState
  after_round s rows n = record s {
    world = record s.world {
      draws = s.world.draws + 1;
      db = record s.world.db { candidates = rows };
    };
    created_candidates = s.created_candidates + n;
  }

  -- One message against one rule. Without a match nothing happens. With one, either a candidate was
  -- there and nothing is counted, or one is stored and counted, or the date of the message is not
  -- valid and the round throws.
  pub scan_rule_lem :
      (message : RawMailMessage) (rule : RuleWithConditions) (s : ScanState)
      → ((message_matches_rule unicode message rule ≡ false)
          × (scan_rule prisma unicode account message rule s ≡ (ok tt, s)))
        ⊎ ((message_matches_rule unicode message rule ≡ true)
            × (((t : ℕ) × (message.received_at ≡ some t)
                  × (((rows : List EmailCandidate) × (creation s message rule t ≡ written rows)
                        × (scan_rule prisma unicode account message rule s
                            ≡ (ok tt, after_round s rows 1)))
                      ⊎ ((creation s message rule t ≡ refused p2002)
                          × (scan_rule prisma unicode account message rule s
                              ≡ (ok tt, after_round s s.world.db.candidates 0)))))
                ⊎ ((message.received_at ≡ none)
                    × (scan_rule prisma unicode account message rule s ≡ (err invalid, s)))))
  unfolding scan_rule create_candidate
  scan_rule_lem message rule s = elim (Bool-cases (message_matches_rule unicode message rule)) [
    | inr differs ↦ inl (differs, ground arith)
    | inl matches ↦ elim (Option-cases message.received_at) [
      | inl undated ↦ inr (matches, inr (undated, ground (arith, undated)))
      | inr (t, dated) ↦ elim (Written-cases (creation s message rule t)) [
        | inl (rows, stored) ↦
            inr (matches, inl (t, dated, inl (rows, stored, ground (arith, dated, stored))))
        | inr (c, failed) ↦
            let e = (prisma.candidates.create_refused _ _ _ failed).0 in
            let duplicate : creation s message rule t ≡ refused p2002 = ground (arith, failed, e) in
            inr (matches, inl (t, dated, inr (duplicate, ground (arith, dated, duplicate))))
      ]
    ]
  ]
