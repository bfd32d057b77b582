-- ===== src/Auth/Google.antt =====
-- auth/google-oauth.service.ts: the login with Google, over the package google-auth-library.
use my_account_controller.Common.{
  ℕ, Option, none, some, Text, given, Result, ok, err, plain, no_id_token, no_profile, remote,
}
use my_account_controller.Auth.Session.{GoogleProfile}

pub record IdPayload : Type 0 where
  pub sub : Option Text
  pub email : Option Text

-- `OAuth2Client` as configured by the constructor. `none` from a remote call is its exception.
-- `hex_state` is `randomBytes(16).toString('hex')` at a draw.
pub record GoogleClient : Type 0 where
  pub hex_state : ℕ → Text
  pub generate_auth_url : Text → Text
  -- `getToken(code)`: the id_token of the answer
  pub get_token : Text → Option (Option Text)
  -- `verifyIdToken` and `getPayload`
  pub verify_id_token : Text → Option (Option IdPayload)

module _ (client : GoogleClient) where
  unfoldable pub generate_state : ℕ → Text
  generate_state draw = client.hex_state draw

  unfoldable pub build_auth_url : Text → Text
  build_auth_url state = client.generate_auth_url state

  profile_of : Option IdPayload → Result GoogleProfile
  profile_of none = err (plain no_profile)
  profile_of (some payload) = elim (given payload.sub) [
    | none ↦ err (plain no_profile)
    | some sub ↦ elim (given payload.email) [
      | none ↦ err (plain no_profile)
      | some email ↦ ok (record { sub = sub; email = email })
    ]
  ]

  unfoldable pub exchange_code_for_profile : Text → Result GoogleProfile
  unfolding profile_of
  exchange_code_for_profile code = elim (client.get_token code) [
    | none ↦ err remote
    | some id_token ↦ elim (given id_token) [
      | none ↦ err (plain no_id_token)
      | some token ↦ elim (client.verify_id_token token) [
        | none ↦ err remote
        | some payload ↦ profile_of payload
      ]
    ]
  ]
