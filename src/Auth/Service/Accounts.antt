-- ===== src/Auth/Service/Accounts.antt =====
-- domain/auth/service.py (app): registration, authentication and roles.
use job_finder_agent.Common.{
  ℕ, ◌+◌, Bool, false, ◌&&◌, ◌||◌, not, none, some, String, str_eq, ltb, leb, if◌then◌else◌, add,
  is_none,
}
use job_finder_agent.Errors.Exceptions.{
  user_already_exists, account_locked, invalid_credentials, email_verification_required,
  user_or_role_not_found,
}
use job_finder_agent.Session.{
  Action, ◌>>=◌, ◌>>◌, pure, fail, modify, draw, commit_session, flush_session,
}
use job_finder_agent.Auth.Models.{
  User, Role, Identity, active, pending_verification, is_active, is_pending,
}
use job_finder_agent.Auth.Platform.{Platform, Settings}
use job_finder_agent.Auth.Security.{minutes}
use job_finder_agent.Auth.Repository.{user, user_by_email, role, create_role, assign_role, set_user}

-- `user.locked_until and user.locked_until > now`
abbrev pub is_locked : ℕ → User → Bool
is_locked now u = elim u.locked_until [ none ↦ false | some t ↦ ltb now t ]

module _ (P : Platform) (cfg : Settings) where
  -- The role with the name, which is created if there is none.
  unfoldable pub ensure_role : String → String → Action Identity Role
  ensure_role name description = do
    found ← role name
    elim found [ none ↦ create_role P name (some description) | some r ↦ pure r ]

  abbrev pub is_initial_admin : String → Bool
  is_initial_admin email = elim cfg.initial_admin_email [
    | none ↦ false
    | some e ↦ not (str_eq e "") && str_eq email (P.lower e)
  ]

  abbrev pub new_user : ℕ → String → String → User
  new_user id email password_hash = record {
    id = id;
    email = some email;
    password_hash = some password_hash;
    status = if cfg.auth_email_verification_enabled then pending_verification else active;
    email_verified_at = none;
    failed_login_attempts = 0;
    locked_until = none;
  }

  -- The roles that `register` gives to a new user.
  unfoldable pub give_roles : User → String → Action Identity (Unit {0})
  unfolding ensure_role
  give_roles new email = do
    r ← ensure_role cfg.default_user_role "Default user role"
    assign_role new.id r.id
    if is_initial_admin email
        then (do admin ← ensure_role "admin" "Administrator role"; assign_role new.id admin.id)
        else pure tt

  -- The new row is flushed, and gets its roles.
  unfoldable pub store_user : User → String → Action Identity User
  unfolding give_roles
  store_user new email = do
    modify (λ d. record d { users = add new d.users })
    flush_session
    give_roles new email
    pure new

  unfoldable pub register : String → String → Action Identity User
  unfolding store_user
  register given password = do
    let email = P.lower given
    existing ← user_by_email P email
    elim existing [
      | some u ↦ fail user_already_exists
      | none ↦ (do
        id ← draw P.uuid4
        password_hash ← draw (λ t. P.hash_password t password)
        store_user (new_user id email password_hash) email)
    ]

  -- The password fits, and the account may sign in.
  abbrev pub may_sign_in : String → User → Bool
  may_sign_in password u =
      elim u.password_hash [ none ↦ false | some h ↦ P.verify_password password h ]
      && (is_active u.status || (cfg.auth_email_verification_enabled && is_pending u.status))

  -- The attributes that a failed attempt changes.
  unfoldable pub count_failure : ℕ → User → User
  count_failure now u =
      let attempts = u.failed_login_attempts + 1 in
      record u {
        failed_login_attempts = attempts;
        locked_until =
            if leb cfg.auth_max_login_attempts attempts
            then some (now + minutes cfg.auth_lockout_minutes)
            else u.locked_until;
      }

  unfoldable pub clear_failures : User → User
  clear_failures u = record u { failed_login_attempts = 0; locked_until = none }

  -- `authenticate` once the user is found.
  unfoldable pub authenticate_user : String → ℕ → User → Action Identity User
  unfolding count_failure clear_failures set_user
  authenticate_user password now u =
      if cfg.auth_account_lockout_enabled && is_locked now u
      then fail account_locked
      else if not (may_sign_in password u)
      then if cfg.auth_account_lockout_enabled
        then (do
          modify (set_user u.id (count_failure now))
          commit_session
          fail invalid_credentials)
        else fail invalid_credentials
      else if cfg.auth_email_verification_enabled && is_none u.email_verified_at
      then fail email_verification_required
      else if cfg.auth_account_lockout_enabled
      then (do modify (set_user u.id clear_failures); commit_session; pure (clear_failures u))
      else pure u

  unfoldable pub authenticate : String → String → Action Identity User
  unfolding authenticate_user
  authenticate email password = do
    found ← user_by_email P (P.lower email)
    now ← draw P.now
    elim found [ none ↦ fail invalid_credentials | some u ↦ authenticate_user password now u ]

  -- `AuthService.assign_role`
  unfoldable pub assign_role_by_name : ℕ → String → Action Identity (Unit {0})
  assign_role_by_name user_id role_name = do
    target ← user user_id
    found ← role role_name
    elim target [
      | none ↦ fail user_or_role_not_found
      | some u ↦ elim found [
        | none ↦ fail user_or_role_not_found
        | some r ↦ assign_role user_id r.id
      ]
    ]
