-- ===== src/Mail/Matcher.antt =====
-- mail/rules/rule-matcher.util.ts: whether a message matches a rule.
pub mod Includes
pub mod Spec
use my_account_controller.Common.{
  ℕ, Bool, true, false, ◌&&◌, ◌||◌, Option, none, some, List, [], ◌∷◌, map, Text, any, all, is_some,
  nat_eq, if◌then◌else◌, given,
}
use my_account_controller.Database.{
  EmailRule, EmailRuleCondition, ConditionType, ConditionValue, JsonValue, LogicalOperator, and_all,
  or_any,
}
use my_account_controller.Mail.Provider.{RawMailMessage}

-- `toLowerCase()`, and `EMOJI_REGEX.test` (`\p{Extended_Pictographic}`): the tables of Unicode.
pub record Unicode : Type 0 where
  pub to_lower : Text → Text
  pub has_pictographic : Text → Bool

pub record RuleWithConditions : Type 0 where
  pub rule : EmailRule
  pub conditions : List EmailRuleCondition

abbrev pub is_prefix : Text → Text → Bool
is_prefix [] hay = true
is_prefix (c ∷ needle) [] = false
is_prefix (c ∷ needle) (d ∷ hay) = nat_eq c d && is_prefix needle hay

-- `hay.includes(needle)`
unfoldable pub includes : Text → Text → Bool
includes needle [] = is_prefix needle []
includes needle (d ∷ hay) = is_prefix needle (d ∷ hay) || includes needle hay

-- `typeof v === 'string' ? v : undefined`
abbrev pub as_text : Option JsonValue → Option Text
as_text none = none
as_text (some (JsonValue.text t)) = some t
as_text (some (JsonValue.flag b)) = none
as_text (some JsonValue.other) = none

-- `v !== false`
abbrev pub is_not_false : Option JsonValue → Bool
is_not_false (some (JsonValue.flag false)) = false
is_not_false v = true

abbrev pub same_flag : Bool → Bool → Bool
same_flag true b = b
same_flag false true = false
same_flag false false = true

-- `domain ?? contains`
abbrev pub first_of_both : Option Text → Option Text → Option Text
first_of_both (some d) contains = some d
first_of_both none contains = contains

-- `some(Boolean)` for OR, `every(Boolean)` otherwise
abbrev pub combine : LogicalOperator → List Bool → Bool
combine or_any results = any (λ b. b) results
combine and_all results = all (λ b. b) results

module _ (unicode : Unicode) where
  -- `!!needle && text.toLowerCase().includes(needle.toLowerCase())`
  unfoldable pub contains_given : Option Text → Text → Bool
  contains_given needle text = elim (given needle) [
    | none ↦ false
    | some n ↦ includes (unicode.to_lower n) (unicode.to_lower text)
  ]

  unfoldable pub evaluate_by : ConditionType → ConditionValue → RawMailMessage → Bool
  unfolding contains_given
  evaluate_by ConditionType.sender value message =
      contains_given (first_of_both (as_text value.domain) (as_text value.contains)) message.sender
  evaluate_by ConditionType.subject_keyword value message =
      contains_given (as_text value.contains) message.subject
  evaluate_by ConditionType.body_keyword value message =
      contains_given (as_text value.contains) message.body_preview
  evaluate_by ConditionType.has_emoji value message =
      same_flag
        (unicode.has_pictographic message.subject || unicode.has_pictographic message.body_preview)
        (is_not_false value.equals)
  evaluate_by ConditionType.has_attachment value message =
      same_flag message.has_attachment (is_not_false value.equals)
  evaluate_by (ConditionType.other name) value message = false

  unfoldable pub evaluate_condition : RawMailMessage → EmailRuleCondition → Bool
  evaluate_condition message c = evaluate_by c.condition_type c.condition_value message

  unfoldable pub matches_conditions :
      RawMailMessage → LogicalOperator → List EmailRuleCondition → Bool
  matches_conditions message operator [] = false
  matches_conditions message operator (c ∷ cs) =
      combine operator (map (evaluate_condition message) (c ∷ cs))

  unfoldable pub message_matches_rule : RawMailMessage → RuleWithConditions → Bool
  unfolding matches_conditions
  message_matches_rule message r = matches_conditions message r.rule.logical_operator r.conditions
