-- ===== src/RateLimit/Middleware.antt =====
-- observability/rate_limit.py and `csrf_middleware` of observability/security.py (app).
use job_finder_agent.Common.{
  ℕ, Bool, true, false, ◌&&◌, ◌||◌, not, Option, none, some, List, [], ◌∷◌, any, String, str_eq,
  starts_with, if◌then◌else◌, or_default, Texts, ◌⧺◌,
}
use job_finder_agent.Errors.Handlers.{Response, build_error_payload}
use job_finder_agent.RateLimit.Headers.{set_headers}
use job_finder_agent.RateLimit.Limiter.{Redis, RateLimitResult, check}

-- The settings that the middleware reads.
pub record Limits : Type 0 where
  pub rate_limit_enabled : Bool
  pub rate_limit_window_seconds : ℕ
  pub rate_limit_general_requests : ℕ
  pub rate_limit_auth_requests : ℕ
  pub rate_limit_fail_open : Bool
  pub trusted_proxy_ips : String
  pub csrf_enabled : Bool

-- What the middleware reads of a request. A missing header is `none`, and so is a missing cookie.
pub record Request : Type 0 where
  pub method : String
  pub path : String
  pub client_host : Option String
  pub authorization : Option String
  pub forwarded_for : Option String
  pub request_id : String
  -- The header X-Request-ID.
  pub given_id : Option String
  pub csrf_cookie : Option String
  pub csrf_header : Option String
  pub access_cookie : Option String
  pub refresh_cookie : Option String

-- A text that is there and is not empty.
abbrev pub is_given : Option String → Bool
is_given none = false
is_given (some text) = not (str_eq text "")

abbrev first_of : List String → String
first_of [] = ""
first_of (x ∷ xs) = x

-- The handler of a request is a parameter: it answers with headers, which the middleware adds to.
abbrev pub Handler : Type 0 → Type 0
Handler S = Request → S → Response × S

module _ (T : Texts) (sha256 : String → String) (cfg : Limits) where
  unfoldable pub client_ip : Request → String
  client_ip r =
      let peer = or_default r.client_host "unknown" in
      let forwarded = T.strip (first_of (T.split (or_default r.forwarded_for "") ",")) in
      if any (λ item. not (str_eq (T.strip item) "") && str_eq (T.strip item) peer)
          (T.split cfg.trusted_proxy_ips ",")
        && not (str_eq forwarded "")
      then forwarded
      else peer

  unfoldable pub identity_key : Request → String
  unfolding client_ip
  identity_key r =
      let authorization = or_default r.authorization "" in
      if starts_with (T.lower authorization) "bearer " && not (str_eq (T.from 7 authorization) "")
      then "token:" ⧺ T.until 24 (sha256 (T.from 7 authorization))
      else "ip:" ⧺ client_ip r

unfoldable pub is_auth_path : String → Bool
is_auth_path path = starts_with path "/api/v1/auth/" || starts_with path "/api/v2/auth/"

unfoldable pub is_exempt : String → Bool
is_exempt path =
    starts_with path "/health"
    || any (str_eq path) ("/metrics" ∷ "/docs" ∷ "/openapi.json" ∷ "/redoc" ∷ [])

-- `_headers`
unfoldable pub limit_headers : Texts → RateLimitResult → List (String × String)
limit_headers T result =
    ("X-RateLimit-Limit", T.decimal result.limit)
    ∷ ("X-RateLimit-Remaining", T.decimal result.remaining)
    ∷ ("X-RateLimit-Reset", T.decimal result.reset_at)
    ∷ ("Retry-After", T.decimal result.retry_after)
    ∷ []

unfoldable pub refusal : Request → ℕ → String → String → List (String × String) → Response
unfolding build_error_payload
refusal r status_code code message headers = record {
  status_code = status_code;
  content = build_error_payload code message r.request_id none;
  headers = headers;
}

-- The limit for a path.
unfoldable pub limit_for : Limits → String → ℕ
unfolding is_auth_path
limit_for cfg path =
    if is_auth_path path then cfg.rate_limit_auth_requests else cfg.rate_limit_general_requests

module _ {S : Type 0} (T : Texts) (sha256 : String → String) (cfg : Limits) (redis : Redis S)
    (call_next : Handler S) where
  -- The handler's response with the limiter's headers set on it.
  unfoldable pub call_with_headers : RateLimitResult → Handler S
  unfolding limit_headers
  call_with_headers result r s =
      let (response, s') = call_next r s in
      (record response { headers = set_headers (limit_headers T result) response.headers }, s')

  unfoldable pub rate_limit_middleware : ℕ → Handler S
  unfolding identity_key check is_auth_path is_exempt limit_for refusal limit_headers
      call_with_headers
  rate_limit_middleware now r s =
      if not cfg.rate_limit_enabled || not (starts_with r.path "/api/") || is_exempt r.path
      then call_next r s
      else (let (checked, s') =
            check T redis now (identity_key T sha256 cfg r) (limit_for cfg r.path)
              cfg.rate_limit_window_seconds s in
          elim checked [
            | none ↦
                if cfg.rate_limit_fail_open && not (is_auth_path r.path)
                then call_next r s'
                else (refusal r 503 "RATE_LIMIT_UNAVAILABLE" "rate limiting unavailable" [], s')
            | some result ↦
                if not result.allowed
                then (
                  refusal r 429 "RATE_LIMIT_EXCEEDED" "too many requests" (limit_headers T result),
                  s',
                )
                else call_with_headers result r s'
          ])

abbrev pub is_unsafe : String → Bool
is_unsafe m = any (str_eq m) ("POST" ∷ "PUT" ∷ "PATCH" ∷ "DELETE" ∷ [])

abbrev same_token : Option String → Option String → Bool
same_token (some a) (some b) = str_eq a b
same_token none none = true
same_token _ _ = false

module _ {S : Type 0} (cfg : Limits) (call_next : Handler S) where
  unfoldable pub csrf_middleware : Handler S
  unfolding refusal
  csrf_middleware r s =
      if cfg.csrf_enabled
        && is_unsafe r.method
        && (is_given r.access_cookie || is_given r.refresh_cookie)
        && (not (is_given r.csrf_cookie) || not (same_token r.csrf_header r.csrf_cookie))
      then (refusal r 403 "CSRF_VALIDATION_FAILED" "CSRF validation failed" [], s)
      else call_next r s
