-- ===== src/Application/Stack.antt =====
-- What every answer of the application bears, by the order in which its middleware is added.
use job_finder_agent.Common.{
  ℕ, ◌≡◌, ◌⊎◌, Bool, ◌||◌, not, Option, none, some, String, starts_with, if◌then◌else◌, Texts,
}
use job_finder_agent.Errors.Handlers.{Response}
use job_finder_agent.RateLimit.Limiter.{Redis, RateLimitResult, check}
use job_finder_agent.RateLimit.Headers.{header_of}
use job_finder_agent.RateLimit.Middleware.{
  Limits, Request, Handler, identity_key, is_exempt, limit_for, rate_limit_middleware,
}
use job_finder_agent.RateLimit.Secured.{is_docs, docs_policy, strict_policy}

abbrev frame : String
frame = "X-Frame-Options"

abbrev policy : String
policy = "Content-Security-Policy"

-- The response has the header against framing, and the policy for content of its path: the pages of the
-- documentation have one of their own.
abbrev pub IsSecured : Request → Response → Type 0
IsSecured r response =
    (header_of frame response.headers ≡ some "DENY")
    × (header_of policy response.headers
        ≡ some (if is_docs r.path then docs_policy else strict_policy))

-- The limiter's own answers, which have neither.
abbrev pub IsRefusal : Response → Type 0
IsRefusal response =
    ((response.status_code ≡ 429) ⊎ (response.status_code ≡ 503))
    × (header_of frame response.headers ≡ none)
    × (header_of policy response.headers ≡ none)

module _ {S : Type 0} (T : Texts) (sha256 : String → String) (cfg : Limits) (redis : Redis S)
    (call_next : Handler S) (now : ℕ) (r : Request)
    (secured : (s : S) → IsSecured r (call_next r s).0) where
  abbrev limit_answer : S → Option RateLimitResult × S
  limit_answer s =
      check T redis now (identity_key T sha256 cfg r) (limit_for cfg r.path)
        cfg.rate_limit_window_seconds s

  abbrev is_passed : Bool
  is_passed = not cfg.rate_limit_enabled || not (starts_with r.path "/api/") || is_exempt r.path

  abbrev reply : S → Response × S
  reply s = rate_limit_middleware T sha256 cfg redis call_next now r s
