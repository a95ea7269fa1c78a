-- ===== src/Auth/Models.antt =====
-- The tables of domain/preferences/models.py (app) that authentication uses. A UUID is a number,
-- and a moment is a number of seconds. Columns that the database alone fills and that no operation
-- here reads are left out (`created_at`, `updated_at`, `last_used_at`), and so are a user's
-- `timezone` and the primary key of refresh tokens.
use job_finder_agent.Common.{ℕ, Bool, true, false, Option, List, String}

-- The column `status`: the two values that the code writes, and any other text.
pub data Status : Type 0 where
  active pending_verification : Status
  other_status : String → Status

abbrev pub is_active : Status → Bool
is_active active = true
is_active _ = false

abbrev pub is_pending : Status → Bool
is_pending pending_verification = true
is_pending _ = false

pub record User : Type 0 where
  pub id : ℕ
  pub email : Option String
  pub password_hash : Option String
  pub status : Status
  pub email_verified_at : Option ℕ
  pub failed_login_attempts : ℕ
  pub locked_until : Option ℕ

pub record Role : Type 0 where
  pub id : ℕ
  pub name : String
  pub description : Option String
  pub is_active : Bool

pub record UserRole : Type 0 where
  pub user_id : ℕ
  pub role_id : ℕ

pub record RefreshToken : Type 0 where
  pub user_id : ℕ
  pub session_id : Option ℕ
  pub token_hash : String
  pub family_id : ℕ
  pub expires_at : ℕ
  pub revoked_at : Option ℕ

pub record AuthSession : Type 0 where
  pub id : ℕ
  pub user_id : ℕ
  pub device_name : Option String
  pub user_agent : Option String
  pub ip_address : Option String
  pub revoked_at : Option ℕ

pub data Purpose : Type 0 where
  email_verification password_reset : Purpose

pub record VerificationCode : Type 0 where
  pub id : ℕ
  pub user_id : ℕ
  pub purpose : Purpose
  pub code_hash : String
  pub expires_at : ℕ
  pub consumed_at : Option ℕ

-- `created_at` is the database's clock; the metadata is a dictionary of texts.
pub record AuditEvent : Type 0 where
  pub id : ℕ
  pub actor_user_id : Option ℕ
  pub action : String
  pub resource_type : String
  pub resource_id : Option String
  pub success : Bool
  pub ip_address : Option String
  pub user_agent : Option String
  pub request_id : Option String
  pub event_metadata : List (String × String)
  pub created_at : ℕ

pub record Identity : Type 0 where
  pub users : List User
  pub roles : List Role
  pub user_roles : List UserRole
  pub refresh_tokens : List RefreshToken
  pub auth_sessions : List AuthSession
  pub verification_codes : List VerificationCode
  pub audit_events : List AuditEvent
