-- ===== src/Auth/Service/Tokens.antt =====
-- domain/auth/service.py (app): tokens and sessions.
use job_finder_agent.Common.{
  ℕ, ◌+◌, ◌&&◌, ◌||◌, Option, none, some, List, [], String, leb, if◌then◌else◌, is_none, is_some,
}
use job_finder_agent.Errors.Exceptions.{
  refresh_token_replay, invalid_refresh_token, session_management_disabled, session_not_found,
  current_session_unavailable, invalid_access_token,
}
use job_finder_agent.Session.{Action, ◌>>=◌, ◌>>◌, pure, fail, draw, commit_session}
use job_finder_agent.Auth.Models.{User, RefreshToken, AuthSession, Identity, is_active}
use job_finder_agent.Auth.Platform.{Platform, Settings, Decoded}
use job_finder_agent.Auth.Security.{create_access_token, decode_access_token, days}
use job_finder_agent.Auth.Repository.{
  user, roles, save_auth_session, save_refresh_token, refresh_token, revoke_tokens, auth_sessions,
  revoke_auth_session, revoke_other_auth_sessions,
}

-- `session_metadata`; a missing entry is None.
pub record Metadata : Type 0 where
  pub device_name : Option String
  pub user_agent : Option String
  pub ip_address : Option String

abbrev pub no_metadata : Metadata
no_metadata = record { device_name = none; user_agent = none; ip_address = none }

module _ (P : Platform) (cfg : Settings) where
  -- A session is opened only where sessions are managed and none is given.
  unfoldable pub open_session : ℕ → Option ℕ → Metadata → Action Identity (Option ℕ)
  open_session user_id session_id metadata =
      if cfg.auth_session_management_enabled && is_none session_id
      then (do
        id ← draw P.uuid4
        save_auth_session (record {
          id = id;
          user_id = user_id;
          device_name = metadata.device_name;
          user_agent = metadata.user_agent;
          ip_address = metadata.ip_address;
          revoked_at = none;
        })
        pure (some id))
      else pure session_id

  -- The second half of `issue_tokens`, once the session is known.
  unfoldable pub sign_tokens : User → List String → Option ℕ → Action Identity (String × String)
  sign_tokens u names session_id = do
    refresh ← draw P.token_urlsafe
    family ← draw P.uuid4
    now ← draw P.now
    save_refresh_token (record {
      user_id = u.id;
      session_id = session_id;
      token_hash = P.sha256 refresh;
      family_id = family;
      expires_at = now + days cfg.refresh_token_expire_days;
      revoked_at = none;
    })
    access ←
        create_access_token P u.id u.email names cfg.jwt_secret_key cfg.access_token_expire_minutes
          cfg.jwt_issuer session_id
    pure (access, refresh)

  -- The access token and the refresh token.
  unfoldable pub issue_tokens : User → Option ℕ → Metadata → Action Identity (String × String)
  issue_tokens u given metadata = do
    names ← roles u.id
    session_id ← open_session u.id given metadata
    sign_tokens u names session_id

  -- The refusal of a token that is revoked or expired.
  unfoldable pub refuse_token : RefreshToken → ℕ → Action Identity (String × String)
  refuse_token t now = do
    revoke_tokens t.family_id now
    commit_session
    if is_some t.revoked_at then fail refresh_token_replay else fail invalid_refresh_token

  unfoldable pub rotate_token : RefreshToken → ℕ → Action Identity (String × String)
  rotate_token t now = do
    revoke_tokens t.family_id now
    commit_session
    found ← user t.user_id
    elim found [
      | none ↦ fail invalid_refresh_token
      | some u ↦
          if is_active u.status
          then issue_tokens u t.session_id no_metadata
          else fail invalid_refresh_token
    ]

  unfoldable pub refresh : String → Action Identity (String × String)
  refresh raw_token = do
    token ← refresh_token (P.sha256 raw_token)
    now ← draw P.now
    elim token [
      | none ↦ fail invalid_refresh_token
      | some t ↦
          if is_some t.revoked_at || leb t.expires_at now
          then refuse_token t now
          else rotate_token t now
    ]

  unfoldable pub list_sessions : ℕ → Action Identity (List AuthSession)
  list_sessions user_id =
      if cfg.auth_session_management_enabled then auth_sessions user_id else pure []

  unfoldable pub revoke_session : ℕ → ℕ → Action Identity (Unit {0})
  revoke_session user_id session_id =
      if cfg.auth_session_management_enabled
      then (do
        now ← draw P.now
        done ← revoke_auth_session session_id user_id now
        if done then pure tt else fail session_not_found)
      else fail session_management_disabled

  unfoldable pub revoke_other_sessions : ℕ → Option ℕ → Action Identity ℕ
  revoke_other_sessions user_id current = elim current [
    | none ↦ fail current_session_unavailable
    | some id ↦
        if cfg.auth_session_management_enabled
        then (do now ← draw P.now; revoke_other_auth_sessions user_id id now)
        else fail session_management_disabled
  ]

  -- `AuthService.claims`
  unfoldable pub claims : String → Action Identity Decoded
  claims token = do
    now ← draw P.now
    elim (decode_access_token P now token cfg.jwt_secret_key cfg.jwt_issuer) [
      | none ↦ fail invalid_access_token
      | some c ↦ pure c
    ]
