-- ===== src/Web/Review/InStep.antt =====
-- The candidates that the page shows and those of the server
-- (apps/web/src/app/(app)/mail/review/page.tsx).
use my_account_controller.Common.{
  ◌≡◌, sym, arith, ◌∙◌, ap, subst, true, false, Option, none, some, List, [], ◌∷◌, map, Text, ok,
  ◌==◌, ◌&&◌, Result-cases, Bool-cases, inl, inr, Memᴰ, head, tail, ◌↔◌,
}
use my_account_controller.Database.{Prisma, EmailCandidate, EmailRule, Db}
use my_account_controller.Mail.Candidates.{find_pending, exclude, is_pending}
use my_account_controller.Mail.Candidates.Decide.{exclude-ok, exclude-only}
use my_account_controller.Mail.Rules.{account_is_owned}
use my_account_controller.World.{World}
use my_account_controller.Auth.Guards.{unlocked_guard}
use my_account_controller.Mail.Controllers.{exclude_candidate}
use my_account_controller.Web.Api.{Http, received-ok, received-err}
use my_account_controller.Web.Browser.{Browser, request}
use my_account_controller.Web.Review.{CandidateItem, Review, without, handle_exclude}

without_sound :
    (id : Text) (cs : List CandidateItem) (c : CandidateItem)
    → Memᴰ c (without id cs)
    → Memᴰ c cs × ((c.0.id == id) ≡ false)
unfolding without
without_sound id [] c m = elim m [ ]
without_sound id ((d, r) ∷ rest) c m = elim (Bool-cases (d.id == id)) [
  | inl same ↦
      let there : Memᴰ c (without id rest) = subst (λ l. Memᴰ c l) (ground arith) m in
      let (n, e) = without_sound id rest c there in (tail n, e)
  | inr differs ↦
      let there : Memᴰ c ((d, r) ∷ without id rest) = subst (λ l. Memᴰ c l) (ground arith) m in
      split there differs (λ n. without_sound id rest c n)
]
  where
    split :
        Memᴰ c ((d, r) ∷ without id rest)
        → (d.id == id) ≡ false
        → (Memᴰ c (without id rest) → Memᴰ c rest × ((c.0.id == id) ≡ false))
        → Memᴰ c ((d, r) ∷ rest) × ((c.0.id == id) ≡ false)
    split (head e) differs later = (head e, ap (λ x. x.0.id == id) e ∙ differs)
    split (tail n) differs later = let (k, e) = later n in (tail k, e)

without_complete :
    (id : Text) (cs : List CandidateItem) (c : CandidateItem)
    → Memᴰ c cs
    → (c.0.id == id) ≡ false
    → Memᴰ c (without id cs)
unfolding without
without_complete id [] c m h = elim m [ ]
without_complete id ((d, r) ∷ rest) c (head e) h =
    let differs : (d.id == id) ≡ false = ap (λ x. x.0.id == id) (sym e) ∙ h in
    subst (λ l. Memᴰ c l) (sym (ground arith)) (head {xs = without id rest} e)
without_complete id ((d, r) ∷ rest) c (tail m) h = elim (Bool-cases (d.id == id)) [
  | inl same ↦ subst (λ l. Memᴰ c l) (ground arith) (without_complete id rest c m h)
  | inr differs ↦
      subst (λ l. Memᴰ c l) (ground arith) (tail {x = (d, r)} (without_complete id rest c m h))
]

unlocked_guard-db : (w : World) → (unlocked_guard w).1.db ≡ w.db
unfolding unlocked_guard
unlocked_guard-db w = ground arith

-- The page shows the candidate.
abbrev pub Shows : List CandidateItem → EmailCandidate → Type 0
Shows cs c = (r : Option EmailRule) × Memᴰ (c, r) cs

module _ (prisma : Prisma) where
  abbrev pub Waits : Text → Db → EmailCandidate → Type 0
  Waits user db c =
      Memᴰ c db.candidates
      × ((is_pending c.status && account_is_owned prisma db user c.email_account_id) ≡ true)

  -- The page shows exactly the candidates of the user that wait for a decision.
  abbrev pub InStep : Text → Db → List CandidateItem → Type 0
  InStep user db cs = (c : EmailCandidate) → Shows cs c ↔ Waits user db c

  exclude-InStep :
      (user u0 id : Text) (w : World) (cs : List CandidateItem) {w' : World}
      → InStep user w.db cs
      → exclude prisma u0 id w ≡ (ok tt, w')
      → InStep user w'.db (without id cs)
  unfolding account_is_owned
  exclude-InStep user u0 id w cs {w'} step h c =
      let (frame, marks) = exclude-ok prisma u0 id w h in
      let mails : w'.db.email_accounts ≡ w.db.email_accounts = ground (arith, frame) in
      (
        λ shown.
            let (r, m) = shown in
            let (there, differs) = without_sound id cs (c, r) m in
            let (stored, waiting) = (step c).0 (r, there) in
            (
              subst (λ x. Memᴰ x w'.db.candidates) (ground (arith, differs)) (marks c stored),
              ground (arith, waiting, mails),
            ),
        λ waits.
            let (m, waiting) = waits in
            let (q, before, e) = exclude-only prisma u0 id w {c = c} h m in
            elim (Bool-cases (q.id == id)) [
              | inl marked ↦ absurd (ground (arith, e, waiting, marked))
              | inr differs ↦
                  let same : c ≡ q = e ∙ (ground (arith, differs)) in
                  let (r, there) = (step c).1 (
                    subst (λ x. Memᴰ x w.db.candidates) (sym same) before,
                    ground (arith, waiting, mails),
                  ) in
                  (r, without_complete id cs (c, r) there (ap (λ x. x.id == id) same ∙ differs))
            ],
      )

  mapped :
      (r : EmailCandidate → Option EmailRule) (cs : List EmailCandidate) (c : EmailCandidate)
      → Memᴰ c cs
      → Memᴰ {A = CandidateItem} (c, r c) (map (λ x. (x, r x)) cs)
  mapped r [] c m = elim m [ ]
  mapped r (d ∷ cs) c (head e) = head (ap (λ x. (x, r x)) e)
  mapped r (d ∷ cs) c (tail m) = tail (mapped r cs c m)

  unmapped :
      (r : EmailCandidate → Option EmailRule) (cs : List EmailCandidate) (c : EmailCandidate)
      (o : Option EmailRule)
      → Memᴰ {A = CandidateItem} (c, o) (map (λ x. (x, r x)) cs)
      → Memᴰ c cs
  unmapped r [] c o m = elim m [ ]
  unmapped r (d ∷ cs) c o (head e) = head (ap (λ x. x.0) e)
  unmapped r (d ∷ cs) c o (tail m) = tail (unmapped r cs c o m)

  -- What the server lists are the candidates that wait.
  pub find_pending-InStep :
      (user : Text) (w : World) {cs : List CandidateItem} {w' : World}
      → find_pending prisma user w ≡ (ok cs, w')
      → InStep user w.db cs
  unfolding find_pending
  find_pending-InStep user w {cs} {w'} h c =
      let pick = λ (x : EmailCandidate).
        is_pending x.status && account_is_owned prisma w.db user x.email_account_id in
      let found = prisma.candidates.find_desc (λ x. x.received_at) pick w.db.candidates in
      let rule =
        λ (x : EmailCandidate). prisma.rules.find_first (λ r. r.id == x.rule_id) w.db.rules in
      let listed : map (λ x. (x, rule x)) found ≡ cs = ground arith in
      (
        λ shown.
            let (o, m) = shown in
            prisma.candidates.find_desc_sound (λ x. x.received_at) pick w.db.candidates {r = c}
              (unmapped rule found c o (subst (λ l. Memᴰ (c, o) l) (sym listed) m)),
        λ waits.
            let (m, p) = waits in
            (
              rule c,
              subst (λ l. Memᴰ (c, rule c) l) listed
                  (mapped rule found c (
                    prisma.candidates.find_desc_complete (λ x. x.received_at) pick w.db.candidates m
                      p)),
            ),
      )

  module _ (http : Http) where
    -- If the page shows exactly the candidates of the user that wait for a decision, then it does
    -- so after an exclusion that ends without an error.
    pub handle_exclude-InStep :
        (user id : Text) (p : Review) (b : Browser) {cs : List CandidateItem}
        → p.candidates ≡ some cs
        → InStep user b.server.db cs
        → (handle_exclude http prisma id (p, b)).0.error ≡ none
        → (cs' : List CandidateItem) × ((handle_exclude http prisma id (p, b)).0.candidates
            ≡ some cs')
          × InStep user (handle_exclude http prisma id (p, b)).1.server.db cs'
    unfolding handle_exclude request exclude_candidate
    handle_exclude-InStep user id p b {cs} shown step fine =
        elim (Result-cases (unlocked_guard b.server)) [
          | inr (e, v, refused) ↦
              let (status, message, seen, high) = received-err http {A = Unit {0}} e in
              absurd (ground (arith, refused, seen))
          | inl ((u0, key), v, admitted) ↦
              let same : v.db ≡ b.server.db =
                ground (arith, unlocked_guard-db b.server, admitted) in
              elim (Result-cases (exclude prisma u0 id v)) [
                | inr (e, w, failed) ↦
                    let (status, message, seen, high) = received-err http {A = Unit {0}} e in
                    absurd (ground (arith, admitted, failed, seen))
                | inl (t, w, done) ↦
                    let before : InStep user v.db cs =
                      subst (λ d. InStep user d cs) (sym same) step in
                    let after = exclude-InStep user u0 id v cs before done in
                    let end : (handle_exclude http prisma id (p, b)).1.server ≡ w =
                      ground (arith, admitted, done, received-ok http t) in
                    (
                      without id cs,
                      ground (arith, admitted, done, received-ok http t, shown),
                      subst (λ x. InStep user x.db (without id cs)) (sym end) after,
                    )
              ]
        ]
