-- ===== src/Tests/Accounts.antt =====
-- Sign-in, registration and password reset for one user.
use job_finder_agent.Common.{
  ℕ, ◌⊎◌, ◌≤◌, ◌≢◌, String, ◌+◌, ◌≡◌, refl, true, false, none, some, [], ◌∷◌, str_eq, ◌==◌,
  if◌then◌else◌, find,
}
use job_finder_agent.Errors.Exceptions.{user_already_exists}
use job_finder_agent.Session.{Session, commit_session, next_fault, raise, app}
use job_finder_agent.Auth.Models.{
  User, active, pending_verification, Identity, password_reset, VerificationCode, RefreshToken,
  AuthSession,
}
use job_finder_agent.Auth.Platform.{Platform, Settings}
use job_finder_agent.Auth.Repository.{user_by_email, has_text}
use job_finder_agent.Auth.Service.{authenticate, register}
use job_finder_agent.Auth.Lockout.{
  attempts, IsLockedOut, attempts-IsLockedOut, authenticate_sound, admitted, account,
}
use job_finder_agent.Auth.Registration.{DistinctEmails, register-DistinctEmails}

-- The clock counts the draws; a text is its own hash and its own lower case.
abbrev pub platform : Platform
platform = record {
  now = λ t. t;
  uuid4 = λ t. t + 100;
  uuid_text = λ u. if u == 1 then "user" else "session";
  parse_uuid = λ s. if str_eq s "user" then some 1 else if str_eq s "session" then some 2 else none;
  token_urlsafe = λ t. "new";
  otp = λ t. "123456";
  lower = λ x. x;
  sha256 = λ x. x;
  hash_password = λ t p. p;
  verify_password = str_eq;
  jwt_encode = λ c secret. "access";
  jwt_decode = λ now token secret issuer.
      some (record { type = some "access"; sub = some "user"; sid = some "session" });
}

abbrev pub settings : Settings
settings = record {
  jwt_secret_key = "secret";
  jwt_issuer = "issuer";
  access_token_expire_minutes = 15;
  refresh_token_expire_days = 30;
  default_user_role = "user";
  initial_admin_email = none;
  auth_require_token = true;
  auth_session_management_enabled = true;
  auth_password_reset_enabled = true;
  auth_email_verification_enabled = false;
  auth_account_lockout_enabled = true;
  auth_max_login_attempts = 2;
  auth_lockout_minutes = 15;
  auth_otp_expire_minutes = 10;
}

abbrev pub ada : User
ada = record {
  id = 1;
  email = some "ada@example.org";
  password_hash = some "pass";
  status = active;
  email_verified_at = none;
  failed_login_attempts = 0;
  locked_until = none;
}

abbrev locked_ada : User
locked_ada = record ada { failed_login_attempts = 2; locked_until = some 900 }

abbrev pub reset : VerificationCode
reset = record {
  id = 5;
  user_id = 1;
  purpose = password_reset;
  code_hash = "123456";
  expires_at = 600;
  consumed_at = none;
}

abbrev pub token : RefreshToken
token = record {
  user_id = 1;
  session_id = some 2;
  token_hash = "old";
  family_id = 3;
  expires_at = 600;
  revoked_at = none;
}

abbrev pub browser : AuthSession
browser = record {
  id = 2;
  user_id = 1;
  device_name = none;
  user_agent = none;
  ip_address = none;
  revoked_at = none;
}

abbrev pub identity : User → RefreshToken → Identity
identity u t = record {
  users = u ∷ [];
  roles = [];
  user_roles = [];
  refresh_tokens = t ∷ [];
  auth_sessions = browser ∷ [];
  verification_codes = reset ∷ [];
  audit_events = [];
}

abbrev pub session : Identity → Session Identity
session d = record { db = d; saved = d; faults = []; ticks = 10 }

abbrev start : Session Identity
start = session (identity ada token)

attempts-IsLockedOut_example :
    IsLockedOut platform settings "ada@example.org"
      (attempts platform settings "ada@example.org" ("guess" ∷ "other" ∷ []) start)
unfolding find
attempts-IsLockedOut_example =
    attempts-IsLockedOut platform settings "ada@example.org" refl "guess" ("other" ∷ []) start ada
      refl (λ t le. refl) (refl, (refl, tt)) refl refl

abbrev locked : Session Identity
locked = session (identity locked_ada token)

authenticate_sound_example :
    (u : User) × (hash : String) × (account platform settings "ada@example.org" start.db ≡ some u)
    × (u.password_hash ≡ some hash)
    × (str_eq "pass" hash ≡ true)
    × ((u.status ≡ active) ⊎ (u.status ≡ pending_verification) × (false ≡ true))
    × ((until : ℕ) → true ≡ true → u.locked_until ≡ some until → until ≤ start.ticks)
    × (false ≡ true → u.email_verified_at ≢ none)
    × (ada ≡ admitted platform settings u)
    × (true ≡ true
        → account platform settings "ada@example.org"
            (authenticate platform settings "ada@example.org" "pass" start).1.saved
          ≡ some ada)
unfolding authenticate find commit_session next_fault user_by_email
authenticate_sound_example =
    authenticate_sound platform settings "ada@example.org" "pass" ada start refl

register-DistinctEmails_example :
    let (r, s') = register platform settings "bob@example.org" "pass" start in
    DistinctEmails s'.db.users
    × DistinctEmails s'.saved.users
    × ((u : User)
        → find (λ x. has_text "bob@example.org" x.email) start.db.users ≡ some u
        → (r ≡ raise (app user_already_exists)) × (s' ≡ start))
register-DistinctEmails_example =
    register-DistinctEmails platform settings "bob@example.org" "pass" start refl (tt, tt) (tt, tt)
