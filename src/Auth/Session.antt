-- ===== src/Auth/Session.antt =====
-- auth/session.types.ts: what one express-session holds, with its id. A missing `unlocked` is
-- false to every test of it.
use my_account_controller.Common.{Bool, Option, Text}

-- `GoogleProfile` of auth/google-oauth.service.ts
pub record GoogleProfile : Type 0 where
  pub sub : Text
  pub email : Text

pub record Session : Type 0 where
  pub id : Text
  pub user_id : Option Text
  pub unlocked : Bool
  pub oauth_state : Option Text
  pub gmail_oauth_state : Option Text
  pub pending_google : Option GoogleProfile
  pub current_webauthn_challenge : Option Text
