-- ===== src/Auth/Security.antt =====
-- auth/security.py (app): access tokens. The other functions there are `hash_password`,
-- `verify_password` and `sha256` of the platform.
use job_finder_agent.Common.{
  ℕ, ◌+◌, ◌*◌, Bool, true, false, Option, none, some, List, String, str_eq, if◌then◌else◌, ◌||◌,
  not,
}
use job_finder_agent.Session.{Action, ◌>>=◌, pure, draw}
use job_finder_agent.Auth.Platform.{Platform, Decoded}

-- `timedelta(minutes=…)` and `timedelta(days=…)` in seconds.
abbrev pub minutes : ℕ → ℕ
minutes n = n * 60

abbrev pub days : ℕ → ℕ
days n = n * 86400

-- `{"sid": str(session_id)} if session_id else {}`
abbrev pub sid_text : Platform → Option ℕ → Option String
sid_text P none = none
sid_text P (some id) = some (P.uuid_text id)

-- A text that is missing or empty is falsy.
abbrev pub is_falsy : Option String → Bool
is_falsy none = true
is_falsy (some s) = str_eq s ""

abbrev is_access : Option String → Bool
is_access none = false
is_access (some s) = str_eq s "access"

module _ {D : Type 0} (P : Platform) where
  unfoldable pub create_access_token :
      (user_id : ℕ) (email : Option String) (roles : List String) (secret : String)
      (expire_minutes : ℕ) (issuer : String) (session_id : Option ℕ)
      → Action D String
  create_access_token user_id email roles secret expire_minutes issuer session_id = do
    now ← draw P.now
    jti ← draw P.uuid4
    pure (
        P.jwt_encode
          (record {
            sub = P.uuid_text user_id;
            email = email;
            roles = roles;
            type = "access";
            jti = P.uuid_text jti;
            iat = now;
            exp = now + minutes expire_minutes;
            iss = issuer;
            sid = sid_text P session_id;
          })
          secret)

-- The check of `decode_access_token` on the claims of a token that was decoded.
unfoldable pub check_claims : Decoded → Option Decoded
check_claims c = if not (is_access c.type) || is_falsy c.sub then none else some c

-- `none` is an InvalidTokenError.
unfoldable pub decode_access_token : Platform → ℕ → String → String → String → Option Decoded
unfolding check_claims
decode_access_token P now token secret issuer = elim (P.jwt_decode now token secret issuer) [
  | none ↦ none
  | some c ↦ check_claims c
]
