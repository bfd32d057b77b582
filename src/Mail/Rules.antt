-- ===== src/Mail/Rules.antt =====
-- mail/rules/rules.service.ts: the mail rules of a user, with their conditions in a table of
-- their own. Deleting a rule takes its conditions and candidates along (`onDelete: Cascade`).
use my_account_controller.Common.{
  ℕ, Bool, true, false, ◌&&◌, Option, none, some, List, [], ◌∷◌, map, Text, ◌==◌, given, or_else,
  is_some, not_found, mail_account_missing, rule_missing, or_throw, pure, gets, ◌>>=◌, ◌>>◌,
}
use my_account_controller.Database.{
  Db, Prisma, EmailRule, EmailRuleCondition, ConditionType, ConditionValue, LogicalOperator,
  ActionType, rule_clash, condition_clash, with_rules, with_conditions, with_candidates,
}
use my_account_controller.Mail.Matcher.{RuleWithConditions}
use my_account_controller.World.{World, Action, draw, change_db, store, db_of, put_db}

pub record ConditionData : Type 0 where
  pub condition_type : ConditionType
  pub condition_value : ConditionValue

pub record RuleData : Type 0 where
  pub email_account_id : Text
  pub logical_operator : LogicalOperator
  pub action_type : ActionType
  pub conditions : List ConditionData

pub record RuleChange : Type 0 where
  pub logical_operator : Option LogicalOperator
  pub action_type : Option ActionType
  pub is_active : Option Bool
  pub conditions : Option (List ConditionData)

unfoldable pub changed_rule : RuleChange → EmailRule → EmailRule
changed_rule d r = record r {
  logical_operator = or_else d.logical_operator r.logical_operator;
  action_type = or_else d.action_type r.action_type;
  is_active = or_else d.is_active r.is_active;
}

module _ (prisma : Prisma) where
  -- The relation filter `emailAccount: { userId }` of a rule or a candidate.
  unfoldable pub account_is_owned : Db → Text → Text → Bool
  account_is_owned db user_id email_account_id = is_some (
      prisma.email_accounts.find_first (λ a. a.id == email_account_id && a.user_id == user_id)
        db.email_accounts)

  -- `include: { conditions: true }`
  unfoldable pub with_its_conditions : Db → EmailRule → RuleWithConditions
  with_its_conditions db r = record {
    rule = r;
    conditions = prisma.conditions.find_many (λ c. c.rule_id == r.id) db.conditions;
  }

  unfoldable pub find_all : Text → Option Text → Action (List RuleWithConditions)
  unfolding account_is_owned with_its_conditions
  find_all user_id email_account_id = gets (λ w. map (with_its_conditions w.db) (
      prisma.rules.find_many
        (λ r.
          account_is_owned w.db user_id r.email_account_id
          && (elim (given email_account_id) [ none ↦ true | some id ↦ r.email_account_id == id ]))
        w.db.rules))

  unfoldable pub new_condition : Text → ConditionData → ℕ → EmailRuleCondition
  new_condition rule_id c id = record {
    id = prisma.uuid id;
    rule_id = rule_id;
    condition_type = c.condition_type;
    condition_value = c.condition_value;
  }

  -- `conditions: { create: [...] }` of a rule that is written
  unfoldable pub create_conditions : Text → List ConditionData → Action (Unit {0})
  create_conditions rule_id [] = pure tt
  create_conditions rule_id (c ∷ cs) = do
    d ← draw
    store
        (λ w. prisma.conditions.create condition_clash (new_condition rule_id c d) w.db.conditions)
        with_conditions
    create_conditions rule_id cs

  unfoldable pub new_rule : RuleData → ℕ → ℕ → EmailRule
  new_rule d id now = record {
    id = prisma.uuid id;
    email_account_id = d.email_account_id;
    logical_operator = d.logical_operator;
    action_type = d.action_type;
    is_active = true;
    created_at = now;
  }

  -- The rule and its conditions are one write of Prisma, all or nothing.
  unfoldable pub write_rule : RuleData → Action EmailRule
  write_rule d = do
    id ← draw
    now ← gets (λ w. w.now)
    let rule = new_rule d id now
    store (λ w. prisma.rules.create rule_clash rule w.db.rules) with_rules
    create_conditions rule.id d.conditions
    pure rule

  unfoldable pub create : Text → RuleData → Action EmailRule
  create user_id d = do
    found ← gets (λ w. account_is_owned w.db user_id d.email_account_id)
    or_throw (elim found [ true ↦ some tt | false ↦ none ]) (not_found mail_account_missing)
    prisma.transaction World EmailRule db_of put_db (write_rule d)

  unfoldable pub find_owned : Text → Text → Action EmailRule
  find_owned user_id id = do
    found ← gets (λ w.
        prisma.rules.find_first
          (λ r. r.id == id && account_is_owned w.db user_id r.email_account_id) w.db.rules)
    or_throw found (not_found rule_missing)

  -- The old conditions go only if new ones were sent.
  unfoldable pub clear_conditions : Text → Option (List ConditionData) → Action (Unit {0})
  clear_conditions id none = pure tt
  clear_conditions id (some cs) = change_db (λ db.
      with_conditions (prisma.conditions.delete_many (λ c. c.rule_id == id) db.conditions) db)

  -- The function given to `$transaction`.
  unfoldable pub rewrite_rule : Text → RuleChange → Action (Unit {0})
  unfolding clear_conditions
  rewrite_rule id d = do
    clear_conditions id d.conditions
    store (λ w. prisma.rules.update rule_clash (λ r. r.id == id) (changed_rule d) w.db.rules)
        with_rules
    create_conditions id (or_else d.conditions [])

  unfoldable pub update : Text → Text → RuleChange → Action (Unit {0})
  unfolding find_owned
  update user_id id d = do
    rule ← find_owned user_id id
    prisma.transaction World (Unit {0}) db_of put_db (rewrite_rule id d)

  -- The rows that go with a rule.
  unfoldable pub delete_rules : (EmailRule → Bool) → (Text → Bool) → Db → Db
  delete_rules pick is_gone db =
      with_candidates (prisma.candidates.delete_many (λ c. is_gone c.rule_id) db.candidates) (
        with_conditions (prisma.conditions.delete_many (λ c. is_gone c.rule_id) db.conditions)
          (with_rules (prisma.rules.delete_many pick db.rules) db))

  unfoldable pub remove : Text → Text → Action (Unit {0})
  unfolding find_owned
  remove user_id id = do
    rule ← find_owned user_id id
    change_db (delete_rules (λ r. r.id == id) (λ rule_id. rule_id == id))
