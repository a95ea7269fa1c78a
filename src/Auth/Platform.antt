-- ===== src/Auth/Platform.antt =====
-- What authentication takes from outside the program: settings (config.py of app), the clock,
-- random values, hashing, case mapping and JSON web tokens. Each draws a value by its number.
use job_finder_agent.Common.{ℕ, ◌<◌, ◌≤◌, ◌≡◌, Bool, true, Option, List, String, some, str_eq}

-- The settings that authentication reads.
pub record Settings : Type 0 where
  pub jwt_secret_key : String
  pub jwt_issuer : String
  pub access_token_expire_minutes : ℕ
  pub refresh_token_expire_days : ℕ
  pub default_user_role : String
  pub initial_admin_email : Option String
  pub auth_require_token : Bool
  pub auth_session_management_enabled : Bool
  pub auth_password_reset_enabled : Bool
  pub auth_email_verification_enabled : Bool
  pub auth_account_lockout_enabled : Bool
  pub auth_max_login_attempts : ℕ
  pub auth_lockout_minutes : ℕ
  pub auth_otp_expire_minutes : ℕ

-- The claims that `create_access_token` signs; `sid` is left out where there is no session.
pub record Claims : Type 0 where
  pub sub : String
  pub email : Option String
  pub roles : List String
  pub type : String
  pub jti : String
  pub iat : ℕ
  pub exp : ℕ
  pub iss : String
  pub sid : Option String

-- What a decoded token holds of the claims that the code reads.
pub record Decoded : Type 0 where
  pub type : Option String
  pub sub : Option String
  pub sid : Option String

pub record Platform : Type 0 where
  pub now : ℕ → ℕ
  pub uuid4 : ℕ → ℕ
  pub uuid_text : ℕ → String
  pub parse_uuid : String → Option ℕ
  -- `secrets.token_urlsafe(48)`, and `f"{secrets.randbelow(1_000_000):06d}"`
  pub token_urlsafe : ℕ → String
  pub otp : ℕ → String
  -- `str.lower`
  pub lower : String → String
  -- `hashlib.sha256(text.encode()).hexdigest()`
  pub sha256 : String → String
  -- `PasswordHash.hash`, which draws a salt, and `PasswordHash.verify`
  pub hash_password : ℕ → String → String
  pub verify_password : String → String → Bool
  -- `jwt.encode` under HS256, and `jwt.decode` at a moment: `none` is an InvalidTokenError
  pub jwt_encode : Claims → String → String
  pub jwt_decode : ℕ → String → String → String → Option Decoded

-- Documented behaviour of the libraries: a UUID's text is parsed back and is not empty, a
-- password's hash verifies, and a signed token decodes to its claims from its `iat` until it expires.
pub record IsLawful (P : Platform) : Type 0 where
  pub parse_uuid-uuid_text : (u : ℕ) → P.parse_uuid (P.uuid_text u) ≡ some u
  pub uuid_text-not_empty : (u : ℕ) → str_eq (P.uuid_text u) "" ≡ Bool.false
  pub verify_password-hash_password :
      (t : ℕ) (p : String) → P.verify_password p (P.hash_password t p) ≡ true
  pub jwt_decode-jwt_encode :
      (now : ℕ) (c : Claims) (secret : String)
      → c.iat ≤ now
      → now < c.exp
      → P.jwt_decode now (P.jwt_encode c secret) secret c.iss
        ≡ some (record { type = some c.type; sub = some c.sub; sid = c.sid })
