-- ===== src/Application.antt =====
-- main.py, observability/logging.py, observability/metrics.py and config.py (app): the middleware that
-- every request passes. The one that is added last is the outermost one. The handler is that of the
-- framework: the CORS middleware, the routes and the handlers of exceptions that `register_exception_handlers`
-- names. The log is left out, and a counter of Prometheus is the list of what it counted.
pub mod Counted
pub mod Stack
use job_finder_agent.Common.{
  ℕ, suc, ◌+◌, Bool, true, false, ◌&&◌, ◌||◌, not, Option, none, some, List, [], ◌∷◌, map,
  filter_by, add, any, String, str_eq, leb, ltb, contains, if◌then◌else◌, Texts,
}
use job_finder_agent.Session.{Result, ok, raise, Exception, other}
use job_finder_agent.Errors.Handlers.{Response}
use job_finder_agent.RateLimit.Limiter.{Redis}
use job_finder_agent.RateLimit.Headers.{set_header}
use job_finder_agent.RateLimit.Middleware.{
  Limits, Request, Handler, is_given, rate_limit_middleware, csrf_middleware,
}
use job_finder_agent.RateLimit.Secured.{security_headers_middleware}

-- The labels of a request: its method, its route and the status of its answer.
pub record Labels : Type 0 where
  pub method : String
  pub route : String
  pub status : ℕ

pub record Metrics : Type 0 where
  pub counters : List (String × ℕ)
  pub http_requests : List Labels
  pub http_errors : List Labels

abbrev bump : String → ℕ → List (String × ℕ) → List (String × ℕ)
bump name value [] = (name, value) ∷ []
bump name value ((k, n) ∷ counters) =
    if str_eq k name then (k, n + value) ∷ counters else (k, n) ∷ bump name value counters

-- `increment`
unfoldable increment : String → ℕ → Metrics → Metrics
increment name value m = record m { counters = bump name value m.counters }

unfoldable pub record_http_request : Labels → Metrics → Metrics
record_http_request l m = record m {
  http_requests = add l m.http_requests;
  http_errors = if leb 500 l.status then add l m.http_errors else m.http_errors;
}

-- The state behind a request, with the metrics and the number of values that were drawn.
pub record Monitored (S : Type 0) : Type 0 where
  pub state : S
  pub metrics : Metrics
  pub ticks : ℕ

-- A handler may let an exception through.
abbrev pub Raising : Type 0 → Type 0
Raising S = Request → S → Result Response × S

abbrev pub answering : {S : Type 0} → Handler S → Raising S
answering handler r s = let (response, s') = handler r s in (ok response, s')

-- `request.headers.get("X-Request-ID") or str(uuid.uuid4())`
unfoldable pub id_for : (ℕ → String) → Request → ℕ → String × ℕ
id_for uuid_text r ticks = elim r.given_id [
  | none ↦ (uuid_text ticks, suc ticks)
  | some id ↦ if str_eq id "" then (uuid_text ticks, suc ticks) else (id, ticks)
]

abbrev pub labelled : (Request → String) → Request → ℕ → Labels
labelled route_of r status = record { method = r.method; route = route_of r; status = status }

module _ {S : Type 0} (uuid_text : ℕ → String) (route_of : Request → String) where
  unfoldable pub request_id_middleware :
      Raising S → Request → Monitored S → Result Response × Monitored S
  unfolding id_for record_http_request
  request_id_middleware call_next r m =
      let (id, ticks) = id_for uuid_text r m.ticks in
      let (result, s') = call_next (record r { request_id = id }) m.state in
      elim result [
        | raise e ↦ (
          raise e,
          record {
            state = s';
            metrics = record_http_request (labelled route_of r 500) m.metrics;
            ticks = ticks;
          },
        )
        | ok response ↦ (
          ok (record response { headers = set_header ("X-Request-ID", id) response.headers }),
          record {
            state = s';
            metrics = record_http_request (labelled route_of r response.status_code) m.metrics;
            ticks = ticks;
          },
        )
      ]

module _ {S : Type 0} (T : Texts) (sha256 : String → String) (cfg : Limits)
    (enabled hsts_enabled : Bool) (redis : Redis S) (now : ℕ) where
  -- The middleware of `create_app` inside of `request_id_middleware`, in its order.
  unfoldable pub limited : Handler S → Handler S
  unfolding security_headers_middleware csrf_middleware rate_limit_middleware
  limited handler =
      rate_limit_middleware T sha256 cfg redis
        (security_headers_middleware enabled hsts_enabled (csrf_middleware cfg handler)) now

  unfoldable pub serve_request :
      (ℕ → String)
      → (Request → String)
      → Handler S
      → Request
      → Monitored S
      → Result Response × Monitored S
  unfolding limited request_id_middleware
  serve_request uuid_text route_of handler =
      request_id_middleware uuid_text route_of (answering (limited handler))

-- `len(text)`
abbrev len : String → ℕ
len String.[] = 0
len (String.◌∷◌ c s) = suc (len s)

-- `Settings.validate_security`: `none` is accepted, and `some` is the message of a ValueError.
unfoldable validate_security : String → String → Bool → String → Option String
validate_security app_env jwt_secret_key cors_allow_credentials cors_allowed_origins =
    if (str_eq app_env "staging" || str_eq app_env "production") && ltb (len jwt_secret_key) 32
    then some "JWT_SECRET_KEY must contain at least 32 characters"
    else if (str_eq app_env "staging" || str_eq app_env "production")
        && str_eq jwt_secret_key "local-development-secret-change-me"
    then some "JWT_SECRET_KEY must not use the development default"
    else if cors_allow_credentials && contains "*" cors_allowed_origins
    then some "wildcard CORS origins cannot be used with credentials"
    else none

-- The origins that `create_app` reads from the settings.
unfoldable origins : Texts → String → List String
origins T cors_allowed_origins =
    filter_by (λ origin. not (str_eq origin "")) (map T.strip (T.split cors_allowed_origins ","))
