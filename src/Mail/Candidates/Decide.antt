-- ===== src/Mail/Candidates/Decide.antt =====
-- Approving and excluding candidates, and a scan over several accounts
-- (mail/candidates/candidates.service.ts).
use my_account_controller.Common.{
  ◌+◌, ◌≡◌, refl, false, ◌&&◌, some, List, [], ◌∷◌, Text, ◌==◌, ok, err, Result, Error, not_found,
  candidate_missing, arith, Memᴰ, Option-cases, inl, inr, ◌⊎◌, if◌then◌else◌,
}
use my_account_controller.Database.{
  EmailAccount, EmailCandidate, EmailRule, Prisma, Written-cases, candidate_clash, excluded,
}
use my_account_controller.Mail.Provider.{MailProvider}
use my_account_controller.Mail.Matcher.{Unicode}
use my_account_controller.Mail.Rules.{account_is_owned}
use my_account_controller.Mail.Candidates.{
  ScanState, scan_account, scan_accounts, find_owned, approve, exclude, mail_action, perform,
}
use my_account_controller.World.{World, MailAction}

Result-cases :
    {S A : Type 0} (x : Result A × S)
    → ((a : A) × (s : S) × (x ≡ (ok a, s))) ⊎ ((e : Error) × (s : S) × (x ≡ (err e, s)))
Result-cases (ok a, s) = inl (a, s, refl)
Result-cases (err e, s) = inr (e, s, refl)

module _ (prisma : Prisma) where
  -- A scan over any accounts ends without an exception, whatever the provider and the database do:
  -- an account that fails does not stop the next one.
  pub scan_accounts-ok :
      (unicode : Unicode) (gmail : MailProvider) (accounts : List EmailAccount) (s : ScanState)
      → (s' : ScanState) × (scan_accounts prisma unicode gmail accounts s ≡ (ok tt, s'))
  unfolding scan_accounts
  scan_accounts-ok unicode gmail [] s = (s, refl)
  scan_accounts-ok unicode gmail (account ∷ accounts) s =
      elim (Result-cases (scan_account prisma unicode gmail account s)) [
        | inl (u, t, e) ↦
            let (v, done) = scan_accounts-ok unicode gmail accounts t in
            (v, ground (arith, e, done))
        | inr (x, t, e) ↦
            let (v, done) =
              scan_accounts-ok unicode gmail accounts
                (record t { failed_accounts = t.failed_accounts + 1 }) in
            (v, ground (arith, e, done))
      ]

  -- A candidate that is not of a mail account of the user can be neither approved nor excluded:
  -- the answer is that it is missing, and nothing changes, in the mailbox neither.
  pub foreign_candidate :
      (gmail : MailProvider) (user_id id : Text) (w : World)
      → ((c : EmailCandidate)
          → Memᴰ c w.db.candidates
          → c.id ≡ id
          → account_is_owned prisma w.db user_id c.email_account_id ≡ false)
      → (approve prisma gmail user_id id w ≡ (err (not_found candidate_missing), w))
        × (exclude prisma user_id id w ≡ (err (not_found candidate_missing), w))
  unfolding approve exclude
  foreign_candidate gmail user_id id w foreign =
      let pick = λ (c : EmailCandidate).
        c.id == id && account_is_owned prisma w.db user_id c.email_account_id in
      elim (Option-cases (prisma.candidates.find_first pick w.db.candidates)) [
        | inl missing ↦ (ground arith, ground arith)
        | inr (c, found) ↦
            let (m, mine) = prisma.candidates.find_first_some pick w.db.candidates found in
            absurd (ground (arith, foreign c m))
      ]

  -- Excluding a candidate leaves the mailbox and every other table alone, and marks the candidates
  -- of that id, at the present time; the others stay.
  pub exclude-ok :
      (user_id id : Text) (w : World) {w' : World}
      → exclude prisma user_id id w ≡ (ok tt, w')
      → (w' ≡ record w { db = record w.db { candidates = w'.db.candidates } })
        × ((c : EmailCandidate)
            → Memᴰ c w.db.candidates
            → Memᴰ
                (if c.id == id
                  then record c { status = excluded; processed_at = some w.now }
                  else c)
                w'.db.candidates)
  unfolding exclude
  exclude-ok user_id id w {w'} h =
      let pick = λ (c : EmailCandidate).
        c.id == id && account_is_owned prisma w.db user_id c.email_account_id in
      let update =
        prisma.candidates.update candidate_clash (λ c. c.id == id)
          (λ c. record c { status = excluded; processed_at = some w.now }) w.db.candidates in
      elim (Option-cases (prisma.candidates.find_first pick w.db.candidates)) [
        | inl missing ↦ absurd (ground arith)
        | inr (c, found) ↦ elim (Written-cases update) [
          | inl (rows, stored) ↦
              let after : w'.db.candidates ≡ rows = ground (arith, stored) in
              (
                ground (arith, stored),
                λ q m. rw after (
                    prisma.candidates.update_stores candidate_clash (λ x. x.id == id)
                      (λ x. record x { status = excluded; processed_at = some w.now })
                      w.db.candidates stored m),
              )
          | inr (x, failed) ↦ absurd (ground (arith, failed))
        ]
      ]

  -- Every candidate after an exclusion is one of those before it, marked if it has the id.
  pub exclude-only :
      (user_id id : Text) (w : World) {w' : World} {c : EmailCandidate}
      → exclude prisma user_id id w ≡ (ok tt, w')
      → Memᴰ c w'.db.candidates
      → (q : EmailCandidate) × Memᴰ q w.db.candidates
        × (c
            ≡ (if q.id == id then record q { status = excluded; processed_at = some w.now } else q))
  unfolding exclude
  exclude-only user_id id w {w'} {c} h m =
      let pick = λ (c : EmailCandidate).
        c.id == id && account_is_owned prisma w.db user_id c.email_account_id in
      let mark =
        λ (c : EmailCandidate). record c { status = excluded; processed_at = some w.now } in
      let update =
        prisma.candidates.update candidate_clash (λ c. c.id == id) mark w.db.candidates in
      elim (Option-cases (prisma.candidates.find_first pick w.db.candidates)) [
        | inl missing ↦ absurd (ground arith)
        | inr (d, found) ↦ elim (Written-cases update) [
          | inl (rows, stored) ↦
              let after : w'.db.candidates ≡ rows = ground (arith, stored) in
              prisma.candidates.update_only candidate_clash (λ x. x.id == id) mark w.db.candidates
                {r = c} stored (rw (← after) m)
          | inr (x, failed) ↦ absurd (ground (arith, failed))
        ]
      ]

  -- If the mailbox refuses the action of the rule, the approval fails with that error, and the
  -- state is the one that the provider left: the candidate is not marked.
  approve_refused :
      (gmail : MailProvider) (user_id id : Text) (w : World) {c : EmailCandidate} {rule : EmailRule}
      {account : EmailAccount} {action : MailAction} {e : Error} {w' : World}
      → find_owned prisma user_id id w ≡ (ok c, w)
      → prisma.rules.find_first (λ r. r.id == c.rule_id) w.db.rules ≡ some rule
      → prisma.email_accounts.find_first (λ a. a.id == c.email_account_id) w.db.email_accounts
        ≡ some account
      → mail_action prisma rule.action_type ≡ some action
      → perform prisma gmail c account action w ≡ (err e, w')
      → approve prisma gmail user_id id w ≡ (err e, w')
  unfolding approve
  approve_refused gmail user_id id w a b d m p = ground arith
