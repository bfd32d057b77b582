-- ===== src/Mail/Matcher/Spec.antt =====
-- `messageMatchesRule` and its conditions, by what they mean (mail/rules/rule-matcher.util.ts).
use my_account_controller.Common.{
  ℕ, ◌≡◌, ◌≢◌, refl, Bool, true, some, List, [], ◌∷◌, ◌++◌, map, Text, arith, any, all, Memᴰ, head,
  tail, ◌↔◌, inl, inr, Bool-cases,
}
use my_account_controller.Database.{
  EmailRuleCondition, ConditionType, JsonValue, LogicalOperator, and_all, or_any,
}
use my_account_controller.Mail.Provider.{RawMailMessage}
use my_account_controller.Mail.Matcher.{
  Unicode, RuleWithConditions, combine, evaluate_condition, message_matches_rule,
}
use my_account_controller.Mail.Matcher.Includes.{includes_iff}

module _ {A : Type 0} (p : A → Bool) where
  any_witness : (xs : List A) → any (λ b. b) (map p xs) ≡ true → (x : A) × Memᴰ x xs × (p x ≡ true)
  any_witness [] h = cc
  any_witness (x ∷ xs) h = elim (Bool-cases (p x)) [
    | inl here ↦ (x, head refl, here)
    | inr there ↦ let (y, m, e) = any_witness xs (ground arith) in (y, tail m, e)
  ]

  any_of_mem : (xs : List A) {x : A} → Memᴰ x xs → p x ≡ true → any (λ b. b) (map p xs) ≡ true
  any_of_mem [] m h = elim m [ ]
  any_of_mem (y ∷ xs) (head e) h = ground arith
  any_of_mem (y ∷ xs) (tail m) h = ground (arith, any_of_mem xs m h)

  all_at : (xs : List A) {x : A} → all (λ b. b) (map p xs) ≡ true → Memᴰ x xs → p x ≡ true
  all_at [] h m = elim m [ ]
  all_at (y ∷ xs) h (head e) = ground arith
  all_at (y ∷ xs) h (tail m) = all_at xs (ground arith) m

  all_of_each : (xs : List A) → ((x : A) → Memᴰ x xs → p x ≡ true) → all (λ b. b) (map p xs) ≡ true
  all_of_each [] each = refl
  all_of_each (y ∷ xs) each =
      ground (arith, each y (head refl), all_of_each xs (λ x m. each x (tail m)))

-- What the operator asks of the conditions.
abbrev pub Combined :
    (EmailRuleCondition → Type 0) → LogicalOperator → List EmailRuleCondition → Type 0
Combined P or_any cs = (c : EmailRuleCondition) × Memᴰ c cs × P c
Combined P and_all cs = (c : EmailRuleCondition) → Memᴰ c cs → P c

module _ (unicode : Unicode) (message : RawMailMessage) where
  abbrev pub Holds : EmailRuleCondition → Type 0
  Holds c = evaluate_condition unicode message c ≡ true

  sound :
      (operator : LogicalOperator) (cs : List EmailRuleCondition)
      → combine operator (map (evaluate_condition unicode message) cs) ≡ true
      → Combined Holds operator cs
  sound or_any cs h = any_witness (evaluate_condition unicode message) cs h
  sound and_all cs h = λ c m. all_at (evaluate_condition unicode message) cs h m

  complete :
      (operator : LogicalOperator) (cs : List EmailRuleCondition)
      → Combined Holds operator cs
      → combine operator (map (evaluate_condition unicode message) cs) ≡ true
  complete or_any cs h = any_of_mem (evaluate_condition unicode message) cs h.1 h.2
  complete and_all cs h = all_of_each (evaluate_condition unicode message) cs h

  matches_split :
      (operator : LogicalOperator) (cs : List EmailRuleCondition)
      → (my_account_controller.Mail.Matcher.matches_conditions unicode message operator cs ≡ true)
        ↔ ((cs ≢ []) × Combined Holds operator cs)
  unfolding my_account_controller.Mail.Matcher.matches_conditions
  matches_split operator [] = (λ h. absurd (cc), λ h. absurd (h.0 refl))
  matches_split operator (c ∷ cs) =
      (λ h. (λ e. cc, sound operator (c ∷ cs) h), λ h. complete operator (c ∷ cs) h.1)

  -- A message matches a rule exactly when the rule has conditions, and one of them holds if they
  -- are joined by OR, or each of them if by AND.
  pub message_matches_rule_iff :
      (rule : RuleWithConditions)
      → (message_matches_rule unicode message rule ≡ true)
        ↔ ((rule.conditions ≢ []) × Combined Holds rule.rule.logical_operator rule.conditions)
  unfolding message_matches_rule
  message_matches_rule_iff rule = matches_split rule.rule.logical_operator rule.conditions

  -- A condition on the sender with a non-empty domain holds exactly when the domain stands in the
  -- sender, both in lower case, whatever else the condition has.
  sender_iff :
      (c : EmailRuleCondition) (first : ℕ) (rest : Text)
      → c.condition_type ≡ ConditionType.sender
      → c.condition_value.domain ≡ some (JsonValue.text (first ∷ rest))
      → (evaluate_condition unicode message c ≡ true) ↔ (
          (pre : Text) × (post : Text) × (unicode.to_lower message.sender
            ≡ pre ++ (unicode.to_lower (first ∷ rest) ++ post)))
  unfolding evaluate_condition my_account_controller.Mail.Matcher.evaluate_by
  sender_iff c first rest kind domain = rw (kind, domain) (includes_iff _ _)
