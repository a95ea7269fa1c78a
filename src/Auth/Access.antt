-- ===== src/Auth/Access.antt =====
-- dependencies/auth.py (app): who makes a request.
use job_finder_agent.Common.{
  ℕ, ◌&&◌, not, Option, none, some, String, str_eq, if◌then◌else◌, add, is_some, any,
}
use job_finder_agent.Errors.Exceptions.{
  authentication_required, invalid_access_token, invalid_user_identifier, permission_denied,
  session_revoked,
}
use job_finder_agent.Session.{Action, ◌>>=◌, ◌>>◌, pure, fail, modify, draw, commit_session}
use job_finder_agent.Auth.Models.{User, Identity, active, is_active}
use job_finder_agent.Auth.Platform.{Platform, Settings, Decoded}
use job_finder_agent.Auth.Security.{decode_access_token}
use job_finder_agent.Auth.Repository.{user, auth_session, roles}

-- What the request's Authorization header holds: a bearer token, or something else.
pub data Authorization : Type 0 where
  bearer : String → Authorization
  other_scheme : Authorization

-- The identifiers in a token: `uuid.UUID(claims["sub"])` and the same of `sid`, if that is truthy.
-- `none` is a ValueError.
abbrev parse_sid : Platform → Option String → Option (Option ℕ)
parse_sid P none = some none
parse_sid P (some s) =
    if str_eq s ""
    then some none
    else elim (P.parse_uuid s) [ none ↦ none | some id ↦ some (some id) ]

unfoldable pub token_ids : Platform → Decoded → Option (ℕ × Option ℕ)
token_ids P c = elim c.sub [
  | none ↦ none
  | some sub ↦ elim (P.parse_uuid sub) [
    | none ↦ none
    | some user_id ↦ elim (parse_sid P c.sid) [ none ↦ none | some sid ↦ some (user_id, sid) ]
  ]
]

-- `00000000-0000-0000-0000-000000000001`, the user of a deployment that asks for no token.
abbrev local_user_id : ℕ
local_user_id = 1

abbrev local_user : User
local_user = record {
  id = local_user_id;
  email = some "local@example.com";
  password_hash = none;
  status = active;
  email_verified_at = none;
  failed_login_attempts = 0;
  locked_until = none;
}

unfoldable current_local_user : Action Identity User
current_local_user = do
  found ← user local_user_id
  elim found [
    | some u ↦ pure u
    | none ↦ (do
      modify (λ d. record d { users = add local_user d.users })
      commit_session
      pure local_user)
  ]

-- The session named by the token is there and is not revoked.
unfoldable pub require_session : ℕ → Option ℕ → Action Identity (Unit {0})
require_session user_id session_id = elim session_id [
  | none ↦ fail session_revoked
  | some id ↦ (do
    found ← auth_session id user_id
    elim found [
      | none ↦ fail session_revoked
      | some a ↦ if is_some a.revoked_at then fail session_revoked else pure tt
    ])
]

unfoldable pub require_active : Option User → Action Identity User
require_active none = fail invalid_access_token
require_active (some u) = if is_active u.status then pure u else fail invalid_access_token

module _ (P : Platform) (cfg : Settings) where
  unfoldable pub user_of_token : String → Action Identity User
  unfolding require_session require_active token_ids
  user_of_token token = do
    now ← draw P.now
    elim (decode_access_token P now token cfg.jwt_secret_key cfg.jwt_issuer) [
      | none ↦ fail invalid_access_token
      | some c ↦ elim (token_ids P c) [
        | none ↦ fail invalid_access_token
        | some ids ↦ (do
          found ← user ids.0
          if cfg.auth_session_management_enabled then require_session ids.0 ids.1 else pure tt
          require_active found)
      ]
    ]

  unfoldable pub get_current_user : Option Authorization → Action Identity User
  unfolding user_of_token current_local_user
  get_current_user none =
      if cfg.auth_require_token then fail authentication_required else current_local_user
  get_current_user (some other_scheme) = fail authentication_required
  get_current_user (some (bearer token)) = user_of_token token

  -- `user_id_from_current_user`: the header X-User-ID counts only where no token is asked for.
  unfoldable pub user_id_from_current_user : Option String → User → Action Identity ℕ
  user_id_from_current_user none u = pure u.id
  user_id_from_current_user (some legacy_id) u =
      if not (str_eq legacy_id "") && not cfg.auth_require_token
      then elim (P.parse_uuid legacy_id) [ none ↦ fail invalid_user_identifier | some id ↦ pure id ]
      else pure u.id

-- `require_role(role)`, for the current user.
unfoldable pub require_role : String → User → Action Identity User
require_role role u = do
  names ← roles u.id
  if any (str_eq role) names then pure u else fail permission_denied
