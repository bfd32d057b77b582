-- ===== src/Web/Review.antt =====
-- The page of the candidates, apps/web/src/app/(app)/mail/review/page.tsx: its state and its
-- handlers. A handler runs to the answers of its requests before the next event.
pub mod InStep
use my_account_controller.Common.{
  ℕ, Bool, true, false, not, Option, none, some, List, [], ◌∷◌, Text, ◌==◌, Error, ok, err,
  if◌then◌else◌,
}
use my_account_controller.Database.{Prisma, EmailCandidate, EmailRule}
use my_account_controller.Mail.Provider.{MailProvider}
use my_account_controller.Mail.Matcher.{Unicode}
use my_account_controller.Mail.Controllers as Routes
use my_account_controller.Web.Api.{Http}
use my_account_controller.Web.Browser.{Browser, request, attempt}

-- A candidate with its rule.
abbrev pub CandidateItem : Type 0
CandidateItem = EmailCandidate × Option EmailRule

-- `info` has the number of accounts that were scanned and of the candidates that were found.
pub record Review : Type 0 where
  pub candidates : Option (List CandidateItem)
  pub error : Option Error
  pub info : Option (ℕ × ℕ)
  pub scanning : Bool

-- `prev?.filter((c) => c.id !== id) ?? null`
unfoldable pub without : Text → List CandidateItem → List CandidateItem
without id [] = []
without id ((c, r) ∷ rest) =
    let others = without id rest in if c.id == id then others else (c, r) ∷ others

unfoldable pub drop : Text → Review → Review
unfolding without
drop id p = record p {
  candidates = elim p.candidates [ none ↦ none | some cs ↦ some (without id cs) ];
}

module _ (http : Http) (prisma : Prisma) where
  unfoldable pub load_candidates : Review × Browser → Review × Browser
  load_candidates =
      attempt (request http {A = List CandidateItem} (Routes.find_pending_candidates prisma))
        (λ cs s. (record s.0 { candidates = some cs }, s.1))
        (λ e s. (record s.0 { error = some e }, s.1))

  unfoldable pub handle_exclude : Text → Review × Browser → Review × Browser
  unfolding drop
  handle_exclude id (p, b) =
      attempt (request http {A = Unit {0}} (Routes.exclude_candidate prisma id))
        (λ u s. (drop id s.0, s.1)) (λ e s. (record s.0 { error = some e }, s.1))
        (record p { error = none }, b)

  module _ (gmail : MailProvider) where
    unfoldable pub handle_approve : Text → Review × Browser → Review × Browser
    unfolding drop
    handle_approve id (p, b) =
        attempt (request http {A = Unit {0}} (Routes.approve_candidate prisma gmail id))
          (λ u s. (drop id s.0, s.1)) (λ e s. (record s.0 { error = some e }, s.1))
          (record p { error = none }, b)

    unfoldable pub handle_scan : Unicode → Review × Browser → Review × Browser
    unfolding load_candidates
    handle_scan unicode (p, b) =
        attempt (request http {A = ℕ × ℕ × ℕ} (Routes.scan_candidates prisma unicode gmail))
          (λ counts s.
            load_candidates
              (record s.0 { info = some (counts.0, counts.1); scanning = false }, s.1))
          (λ e s. (record s.0 { error = some e; scanning = false }, s.1))
          (record p { error = none; info = none; scanning = true }, b)
