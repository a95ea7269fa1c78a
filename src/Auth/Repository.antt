-- ===== src/Auth/Repository.antt =====
-- repositories/auth.py (app): `AuthRepository`.
use job_finder_agent.Common.{
  ℕ, Bool, true, false, Option, none, some, List, String, str_eq, ◌==◌, if◌then◌else◌, find,
  update_where, add, filter_by, any, map, ◌&&◌, not, is_none, length, is_some,
}
use job_finder_agent.Session.{
  Action, ◌>>=◌, ◌>>◌, pure, query, modify, draw, commit_session, flush_session, refresh_session,
}
use job_finder_agent.Auth.Models.{
  User, Role, RefreshToken, AuthSession, VerificationCode, Purpose, email_verification,
  password_reset, Identity,
}
use job_finder_agent.Auth.Platform.{Platform}

-- SQL's `column = value` holds of no NULL.
abbrev pub has_text : String → Option String → Bool
has_text s none = false
has_text s (some t) = str_eq t s

abbrev pub has_id : ℕ → Option ℕ → Bool
has_id n none = false
has_id n (some m) = m == n

-- `column != value` holds of no NULL either.
abbrev pub differs : ℕ → Option ℕ → Bool
differs n none = false
differs n (some m) = not (m == n)

abbrev pub same_purpose : Purpose → Purpose → Bool
same_purpose email_verification email_verification = true
same_purpose password_reset password_reset = true
same_purpose _ _ = false

abbrev pub revoke_token : ℕ → RefreshToken → RefreshToken
revoke_token now t = record t { revoked_at = some now }

abbrev pub revoke_auth : ℕ → AuthSession → AuthSession
revoke_auth now a = record a { revoked_at = some now }

-- `update(RefreshToken).where(p, revoked_at IS NULL).values(revoked_at=now)`
unfoldable pub revoke_tokens_where : (RefreshToken → Bool) → ℕ → Identity → Identity
revoke_tokens_where p now d = record d {
  refresh_tokens =
      update_where (λ t. p t && is_none t.revoked_at) (revoke_token now) d.refresh_tokens;
}

-- The rows with the ids are revoked, by the session's flush of the changed objects.
unfoldable pub revoke_auth_sessions_where : (AuthSession → Bool) → ℕ → Identity → Identity
revoke_auth_sessions_where p now d = record d {
  auth_sessions = update_where p (revoke_auth now) d.auth_sessions;
}

-- A change of one row of the users.
unfoldable pub set_user : ℕ → (User → User) → Identity → Identity
set_user id f d = record d { users = update_where (λ u. u.id == id) f d.users }

unfoldable pub user : ℕ → Action Identity (Option User)
user user_id = query (λ d. find (λ u. u.id == user_id) d.users)

-- The names of the active roles that the user has.
unfoldable pub role_names : ℕ → Identity → List String
role_names user_id d =
    map (λ r. r.name)
      (filter_by
        (λ r. r.is_active && any (λ x. (x.user_id == user_id) && (x.role_id == r.id)) d.user_roles)
        d.roles)

unfoldable pub roles : ℕ → Action Identity (List String)
unfolding role_names
roles user_id = query (role_names user_id)

unfoldable pub role : String → Action Identity (Option Role)
role name = query (λ d. find (λ r. str_eq r.name name) d.roles)

unfoldable pub assign_role : ℕ → ℕ → Action Identity (Unit {0})
assign_role user_id role_id = do
  existing ← query (λ d. find (λ x. (x.user_id == user_id) && (x.role_id == role_id)) d.user_roles)
  elim existing [
    | none ↦ (do
      modify (λ d. record d {
        user_roles = add (record { user_id = user_id; role_id = role_id }) d.user_roles;
      })
      commit_session)
    | some x ↦ pure tt
  ]

unfoldable pub revoke_tokens : ℕ → ℕ → Action Identity (Unit {0})
unfolding revoke_tokens_where
revoke_tokens family_id now = modify (revoke_tokens_where (λ t. t.family_id == family_id) now)

unfoldable pub refresh_token : String → Action Identity (Option RefreshToken)
refresh_token token_hash = query (λ d. find (λ t. str_eq t.token_hash token_hash) d.refresh_tokens)

unfoldable pub save_refresh_token : RefreshToken → Action Identity (Unit {0})
save_refresh_token token = do
  modify (λ d. record d { refresh_tokens = add token d.refresh_tokens })
  commit_session

unfoldable pub save_auth_session : AuthSession → Action Identity (Unit {0})
save_auth_session auth_session = do
  modify (λ d. record d { auth_sessions = add auth_session d.auth_sessions })
  flush_session

unfoldable pub auth_session : ℕ → ℕ → Action Identity (Option AuthSession)
auth_session session_id user_id =
    query (λ d. find (λ a. (a.id == session_id) && (a.user_id == user_id)) d.auth_sessions)

-- The order of the rows, by a column that the database keeps, is left out.
unfoldable pub auth_sessions : ℕ → Action Identity (List AuthSession)
auth_sessions user_id =
    query (λ d. filter_by (λ a. (a.user_id == user_id) && is_none a.revoked_at) d.auth_sessions)

unfoldable pub revoke_auth_session : ℕ → ℕ → ℕ → Action Identity Bool
unfolding auth_session revoke_auth_sessions_where revoke_tokens_where
revoke_auth_session session_id user_id now = do
  found ← auth_session session_id user_id
  elim found [
    | none ↦ pure false
    | some a ↦ if is_some a.revoked_at then pure false else (do
      modify (revoke_auth_sessions_where (λ b. b.id == a.id) now)
      modify (revoke_tokens_where (λ t. has_id session_id t.session_id) now)
      commit_session
      pure true)
  ]

abbrev pub is_other : ℕ → AuthSession → Bool
is_other current a = not (a.id == current)

unfoldable pub revoke_other_auth_sessions : ℕ → ℕ → ℕ → Action Identity ℕ
unfolding auth_sessions revoke_auth_sessions_where revoke_tokens_where
revoke_other_auth_sessions user_id current now = do
  sessions ← auth_sessions user_id
  let others = filter_by (is_other current) sessions
  modify (revoke_auth_sessions_where (λ a. any (λ b. b.id == a.id) others) now)
  if length others == 0 then pure 0 else (do
    modify (revoke_tokens_where (λ t. (t.user_id == user_id) && differs current t.session_id) now)
    commit_session
    pure (length others))

unfoldable pub verification_code : ℕ → Purpose → String → Action Identity (Option VerificationCode)
verification_code user_id purpose code_hash = query (λ d.
    find
      (λ c.
        (c.user_id == user_id)
        && same_purpose c.purpose purpose
        && str_eq c.code_hash code_hash
        && is_none c.consumed_at)
      d.verification_codes)

unfoldable pub save_verification_code : VerificationCode → Action Identity (Unit {0})
save_verification_code code = do
  modify (λ d. record d { verification_codes = add code d.verification_codes })
  commit_session

unfoldable pub revoke_user_tokens : ℕ → ℕ → Action Identity (Unit {0})
unfolding revoke_tokens_where revoke_auth_sessions_where
revoke_user_tokens user_id now = do
  modify (revoke_tokens_where (λ t. t.user_id == user_id) now)
  modify (revoke_auth_sessions_where (λ a. (a.user_id == user_id) && is_none a.revoked_at) now)
  commit_session

module _ (P : Platform) where
  unfoldable pub user_by_email : String → Action Identity (Option User)
  user_by_email email = query (λ d. find (λ u. has_text (P.lower email) u.email) d.users)

  unfoldable pub create_role : String → Option String → Action Identity Role
  create_role name description = do
    id ← draw P.uuid4
    let new : Role = record { id = id; name = name; description = description; is_active = true }
    modify (λ d. record d { roles = add new d.roles })
    commit_session
    refresh_session
    pure new
