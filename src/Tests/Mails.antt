-- ===== src/Tests/Mails.antt =====
-- Runs of a scan, of the decisions on candidates and of the matcher.
use my_account_controller.Common.{
  ℕ, ◌≡◌, ◌≢◌, ◌↔◌, refl, sym, ap, ◌∙◌, arith, true, false, none, [], ◌∷◌, ◌++◌, Text, codes, ok,
  err, Memᴰ, head, tail, Result, not_found, remote, invalid, candidate_missing, Text-discrete,
}
use my_account_controller.Database.{EmailCandidate}
use my_account_controller.Mail.Provider.{MailProvider, RawMailMessage}
use my_account_controller.Mail.Matcher.{
  includes, message_matches_rule, evaluate_condition, evaluate_by,
}
use my_account_controller.Mail.Matcher.Includes.{includes_iff}
use my_account_controller.Mail.Matcher.Spec.{Combined, Holds, message_matches_rule_iff}
use my_account_controller.Mail.Rules.{account_is_owned}
use my_account_controller.Mail.Candidates.{
  ScanState, scan_messages, scan_rules, scan_rule, create_candidate, scan_accounts, approve,
  exclude, find_owned,
}
use my_account_controller.Mail.Candidates.Count.{FreshIds}
use my_account_controller.Mail.Candidates.Scan.{Grows, Ends}
use my_account_controller.Mail.Candidates.Complete.{
  AllCovered, AnyUndated, Unchanged, scan_messages_covers, scan_messages_again,
}
use my_account_controller.Mail.Candidates.Decide.{scan_accounts-ok, foreign_candidate}
use my_account_controller.Tests.Server.{
  client, alice, bob, world, mail, candidate, message, full_rule, plain_letters,
}
use my_account_controller.World.{World}

-- A provider whose mailbox holds one message and refuses every action.
abbrev provider : MailProvider
provider = record {
  list_candidate_messages = λ id w. (ok (message ∷ []), w);
  apply_action = λ id m action w. (err remote, w);
}

abbrev start : ScanState
start = record { world = world; scanned_accounts = 1; created_candidates = 0; failed_accounts = 0 }

uuid_distinct : (m n : ℕ) → client.uuid m ≡ client.uuid n → m ≡ n
uuid_distinct m n h = ground arith

id_apart : (n : ℕ) → candidate.id ≢ client.uuid n
id_apart n h = ground arith

fresh : FreshIds client plain_letters mail.id world
fresh n least c (head e) h = id_apart n (ap (λ x. x.id) (sym e) ∙ h)
fresh n least c (tail m) h = elim m [ ]

scan_messages_covers_example :
    (s' : ScanState) × Grows client plain_letters mail.id start s'
    × Ends client plain_letters mail.id
        (scan_messages client plain_letters mail.id (full_rule ∷ []) (message ∷ []) start)
        s'
        (AllCovered client plain_letters mail.id s' (full_rule ∷ []) (message ∷ []))
        (AnyUndated client plain_letters mail.id (full_rule ∷ []) (message ∷ []))
scan_messages_covers_example =
    scan_messages_covers client plain_letters mail.id uuid_distinct (full_rule ∷ []) (message ∷ [])
      start fresh

-- A message whose date is not valid ends the loops, and the message after it is left out.
undated_ends :
    scan_messages client plain_letters mail.id
      (full_rule ∷ [])
      (record message { received_at = none } ∷ message ∷ [])
      start
    ≡ (err invalid, start)
unfolding scan_messages scan_rules scan_rule message_matches_rule evaluate_condition evaluate_by
    includes create_candidate Text-discrete native.Mathlib.Decide.ℕ_discrete
undated_ends = refl

-- The message of the candidate that is there.
abbrev known : RawMailMessage
known = record message { external_message_id = codes "m0" }

known_covered : AllCovered client plain_letters mail.id start (full_rule ∷ []) (known ∷ [])
known_covered m (head e) r (head f) h = (
  (candidate, head refl, ap (λ x. x.rule.id) (sym f), ap (λ x. x.external_message_id) (sym e)),
  (5, ap (λ x. x.received_at) e),
)
known_covered m (head e) r (tail x) h = elim x [ ]
known_covered m (tail x) r n h = elim x [ ]

scan_messages_again_example :
    (s' : ScanState) × (scan_messages client plain_letters mail.id
        (full_rule ∷ [])
        (known ∷ [])
        start
      ≡ (ok tt, s'))
    × Unchanged client plain_letters mail.id start s'
scan_messages_again_example =
    scan_messages_again client plain_letters mail.id (full_rule ∷ []) (known ∷ []) start
      known_covered

scan_accounts-ok_example :
    (s' : ScanState) × (scan_accounts client plain_letters provider (mail ∷ []) start ≡ (ok tt, s'))
scan_accounts-ok_example = scan_accounts-ok client plain_letters provider (mail ∷ []) start

message_matches_rule_iff_example : (message_matches_rule plain_letters message full_rule ≡ true) ↔ (
    (full_rule.conditions ≢ [])
    × Combined (Holds plain_letters message) full_rule.rule.logical_operator full_rule.conditions)
message_matches_rule_iff_example = message_matches_rule_iff plain_letters message full_rule

includes_iff_example :
    (includes (codes "b") (codes "abc") ≡ true)
    ↔ ((pre : Text) × (post : Text) × (codes "abc" ≡ pre ++ (codes "b" ++ post)))
includes_iff_example = includes_iff (codes "b") (codes "abc")

-- Bob has no mail account.
not_bobs :
    (c : EmailCandidate)
    → Memᴰ c world.db.candidates
    → c.id ≡ 50 ∷ []
    → account_is_owned client world.db bob c.email_account_id ≡ false
unfolding account_is_owned Text-discrete native.Mathlib.Decide.ℕ_discrete
not_bobs c (head e) h = rw e refl
not_bobs c (tail m) h = elim m [ ]

foreign_candidate_example :
    (approve client provider bob (50 ∷ []) world ≡ (err (not_found candidate_missing), world))
    × (exclude client bob (50 ∷ []) world ≡ (err (not_found candidate_missing), world))
foreign_candidate_example = foreign_candidate client provider bob (50 ∷ []) world not_bobs

abbrev excluding : Result (Unit {0}) × World
excluding = exclude client alice (50 ∷ []) world

excluding_ok : excluding ≡ (ok tt, excluding.1)
unfolding exclude Text-discrete native.Mathlib.Decide.ℕ_discrete account_is_owned
excluding_ok = refl

owned : find_owned client alice (50 ∷ []) world ≡ (ok candidate, world)
unfolding find_owned Text-discrete native.Mathlib.Decide.ℕ_discrete account_is_owned
owned = refl
