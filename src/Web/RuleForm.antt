-- ===== src/Web/RuleForm.antt =====
-- The form of a mail rule, `RuleForm` of apps/web/src/app/(app)/mail/rules/page.tsx: its state and
-- its events. React renders between two events, so that a handler sees the state of the page.
pub mod Bounds
use my_account_controller.Common.{
  ℕ, zero, suc, ◌+◌, ◌-◌, ◌<◌, ◌≡◌, Bool, true, false, not, ◌&&◌, Option, none, some, List, [], ◌∷◌,
  ◌++◌, Text, length, leb, ltb, or_else, if◌then◌else◌, Error,
}
use my_account_controller.Database.{
  ConditionType, ConditionValue, JsonValue, LogicalOperator, and_all, ActionType, sender,
}
use my_account_controller.Mail.Rules.{ConditionData, RuleData, RuleChange}
use my_account_controller.Mail.Matcher.{RuleWithConditions}

-- `conditions`, `error` (there or not) and `submitting`; `sent` lists the bodies that were sent,
-- the latest first.
pub record Form : Type 0 where
  pub email_account_id : Text
  pub is_editing : Bool
  pub conditions : List ConditionData
  pub error : Option Text
  pub submitting : Bool
  pub sent : List RuleData

-- `{ conditionType: "sender", conditionValue: {} }`
abbrev pub blank : ConditionData
blank = record {
  condition_type = ConditionType.sender;
  condition_value = record { domain = none; contains = none; equals = none };
}

-- A patch of a condition: its type with an empty value, or its value.
pub data Patch : Type 0 where
  new_type : ConditionType → Patch
  new_value : ConditionValue → Patch

unfoldable pub patched : Patch → ConditionData → ConditionData
patched (new_type t) c = record {
  condition_type = t;
  condition_value = record { domain = none; contains = none; equals = none };
}
patched (new_value v) c = record c { condition_value = v }

-- `prev.map((c, i) => i === index ? { ...c, ...patch } : c)`
unfoldable pub update_at : ℕ → Patch → List ConditionData → List ConditionData
update_at i p [] = []
update_at zero p (c ∷ cs) = patched p c ∷ cs
update_at (suc i) p (c ∷ cs) = c ∷ update_at i p cs

-- `prev.filter((_, i) => i !== index)`
unfoldable pub remove_at : ℕ → List ConditionData → List ConditionData
remove_at i [] = []
remove_at zero (c ∷ cs) = cs
remove_at (suc i) (c ∷ cs) = c ∷ remove_at i cs

-- The form for a new rule, and for one that is edited.
unfoldable pub new_form : Text → Form
new_form email_account_id = record {
  email_account_id = email_account_id;
  is_editing = false;
  conditions = blank ∷ [];
  error = none;
  submitting = false;
  sent = [];
}

unfoldable pub edit_form : Text → List ConditionData → Form
edit_form email_account_id conditions = record {
  email_account_id = email_account_id;
  is_editing = true;
  conditions = conditions;
  error = none;
  submitting = false;
  sent = [];
}

unfoldable pub update_condition : ℕ → Patch → Form → Form
unfolding update_at
update_condition i p f = record f { conditions = update_at i p f.conditions }

unfoldable pub add_condition : Form → Form
add_condition f =
    if leb 5 (length f.conditions)
    then f
    else record f { conditions = f.conditions ++ (blank ∷ []) }

unfoldable pub remove_condition : ℕ → Form → Form
unfolding remove_at
remove_condition i f = record f { conditions = remove_at i f.conditions }

-- What `handleSubmit` sends: without a choice of the operator it is AND.
unfoldable pub payload : ActionType → Option LogicalOperator → Form → RuleData
payload action operator f = record {
  email_account_id = f.email_account_id;
  logical_operator = or_else operator and_all;
  action_type = action;
  conditions = f.conditions;
}

-- `handleSubmit` up to its request, and after the answer. A form for a new rule starts again.
unfoldable pub submit : ActionType → Option LogicalOperator → Form → Form
unfolding payload
submit action operator f = record f {
  error = none;
  submitting = true;
  sent = payload action operator f ∷ f.sent;
}

unfoldable pub saved : Form → Form
saved f = record f {
  conditions = if f.is_editing then f.conditions else blank ∷ [];
  submitting = false;
}

unfoldable pub refused : Text → Form → Form
refused message f = record f { error = some message; submitting = false }

-- What the page lets happen: the button that removes a condition is shown if there are two or
-- more, the one that adds one if there are fewer than five, and the one that submits is disabled
-- while a request runs; its answer comes while it runs.
pub data Step : Form → Form → Type 0 where
  change : (f : Form) (i : ℕ) (p : Patch) → Step f (update_condition i p f)
  add : (f : Form) → length f.conditions < 5 → Step f (add_condition f)
  remove :
      (f : Form) (i : ℕ)
      → i < length f.conditions
      → 1 < length f.conditions
      → Step f (remove_condition i f)
  send :
      (f : Form) (action : ActionType) (operator : Option LogicalOperator)
      → f.submitting ≡ false
      → Step f (submit action operator f)
  answer_ok : (f : Form) → f.submitting ≡ true → Step f (saved f)
  answer_err : (f : Form) (message : Text) → f.submitting ≡ true → Step f (refused message f)

pub data Reach (f : Form) : Form → Type 0 where
  here : Reach f f
  later : {g h : Form} → Reach f g → Step g h → Reach f h
