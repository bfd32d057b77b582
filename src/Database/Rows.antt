-- ===== src/Database/Rows.antt =====
-- The models of prisma/schema.prisma, their unique constraints, and the tables together.
-- A DateTime is a number of milliseconds; a Json column is kept as text, except a condition's.
use my_account_controller.Common.{ℕ, Bool, ◌&&◌, ◌||◌, Option, List, Text, ◌==◌}

-- The strings of the columns that the schema leaves open ("값 추가 가능"), by the values the
-- program tests for.
pub data ActionType : Type 0 where
  delete_candidate spam_candidate important : ActionType
  other : Text → ActionType

pub data ProviderType : Type 0 where
  gmail : ProviderType
  other : Text → ProviderType

pub data ConditionType : Type 0 where
  sender subject_keyword body_keyword has_emoji has_attachment : ConditionType
  other : Text → ConditionType

pub data LogicalOperator : Type 0 where
  and_all or_any : LogicalOperator

pub data CandidateStatus : Type 0 where
  pending approved excluded processed : CandidateStatus

-- A member of a `conditionValue` object, as far as `typeof` and `!==` tell values apart.
pub data JsonValue : Type 0 where
  text : Text → JsonValue
  flag : Bool → JsonValue
  other : JsonValue

pub record ConditionValue : Type 0 where
  pub domain : Option JsonValue
  pub contains : Option JsonValue
  pub equals : Option JsonValue

pub record User : Type 0 where
  pub id : Text
  pub google_sub_id : Text
  pub google_email : Text
  pub master_password_hash : Text
  pub master_kdf_salt : Text
  pub auto_lock_minutes : ℕ
  pub created_at : ℕ

pub record TrustedDevice : Type 0 where
  pub id : Text
  pub user_id : Text
  pub device_label : Text
  pub webauthn_credential_id : Text
  pub webauthn_public_key : Text
  pub counter : ℕ
  pub created_at : ℕ
  pub last_used_at : Option ℕ

pub record Account : Type 0 where
  pub id : Text
  pub user_id : Text
  pub service_name : Text
  pub url_or_app_name : Text
  pub category : Text
  pub login_id : Text
  pub encrypted_password : Text
  pub custom_fields : Option Text
  pub memo : Option Text
  pub created_at : ℕ
  pub updated_at : ℕ

pub record EmailAccount : Type 0 where
  pub id : Text
  pub user_id : Text
  pub provider_type : ProviderType
  pub display_name : Text
  pub encrypted_access_token : Text
  pub encrypted_refresh_token : Text
  pub token_expires_at : Option ℕ
  pub is_active : Bool
  pub connected_at : ℕ

pub record EmailRule : Type 0 where
  pub id : Text
  pub email_account_id : Text
  pub logical_operator : LogicalOperator
  pub action_type : ActionType
  pub is_active : Bool
  pub created_at : ℕ

pub record EmailRuleCondition : Type 0 where
  pub id : Text
  pub rule_id : Text
  pub condition_type : ConditionType
  pub condition_value : ConditionValue

pub record EmailCandidate : Type 0 where
  pub id : Text
  pub rule_id : Text
  pub email_account_id : Text
  pub external_message_id : Text
  pub sender : Text
  pub subject : Text
  pub received_at : ℕ
  pub status : CandidateStatus
  pub processed_at : Option ℕ

pub record Db : Type 0 where
  pub users : List User
  pub devices : List TrustedDevice
  pub accounts : List Account
  pub email_accounts : List EmailAccount
  pub rules : List EmailRule
  pub conditions : List EmailRuleCondition
  pub candidates : List EmailCandidate

-- The pairs of rows that a table cannot hold together: by `@id`, `@unique` and `@@unique`.
unfoldable pub user_clash : User → User → Bool
user_clash a b = a.id == b.id || a.google_sub_id == b.google_sub_id

unfoldable pub device_clash : TrustedDevice → TrustedDevice → Bool
device_clash a b = a.id == b.id || a.webauthn_credential_id == b.webauthn_credential_id

unfoldable pub account_clash : Account → Account → Bool
account_clash a b =
    a.id == b.id
    || (a.user_id == b.user_id
        && (a.url_or_app_name == b.url_or_app_name && a.login_id == b.login_id))

unfoldable pub email_account_clash : EmailAccount → EmailAccount → Bool
email_account_clash a b = a.id == b.id

unfoldable pub rule_clash : EmailRule → EmailRule → Bool
rule_clash a b = a.id == b.id

unfoldable pub condition_clash : EmailRuleCondition → EmailRuleCondition → Bool
condition_clash a b = a.id == b.id

unfoldable pub candidate_clash : EmailCandidate → EmailCandidate → Bool
candidate_clash a b =
    a.id == b.id || (a.rule_id == b.rule_id && a.external_message_id == b.external_message_id)
