-- ===== src/RateLimit/Guard.antt =====
-- What the middleware lets through to a handler.
use job_finder_agent.Common.{
  ℕ, suc, ◌<◌, ◌≤◌, ◌/◌, any, leb, ◌≡◌, ◌⊎◌, inl, inr, true, false, none, some, String, arith,
  starts_with, Texts, Option-cases, Bool-cases, eq_iff, eq_refl, str_eq,
}
use job_finder_agent.RateLimit.Limiter.{
  Redis, RateLimitResult, check, IsCounting, redis_key, result_of,
}
use job_finder_agent.RateLimit.Windows.{check-count}
use job_finder_agent.RateLimit.Middleware.{
  Limits, Request, Handler, identity_key, is_auth_path, is_exempt, limit_for, limit_headers,
  refusal, call_with_headers, rate_limit_middleware, csrf_middleware, is_unsafe, is_given,
}

module _ {S : Type 0} (T : Texts) (sha256 : String → String) (cfg : Limits) (redis : Redis S)
    (call_next : Handler S) where
  -- The key under which a request for authentication is counted.
  abbrev pub auth_key : ℕ → Request → String
  auth_key now r = redis_key T (identity_key T sha256 cfg r) (now / cfg.rate_limit_window_seconds)

  -- With the limiter on, and a Redis that answers, a request for authentication is counted in its window,
  -- and it reaches its handler exactly where the window had counted fewer requests than the limit before;
  -- otherwise it gets 429 with how long to wait, and its handler is not run.
  pub rate_limit_middleware-auth :
      (counts : IsCounting redis) (now : ℕ) (r : Request) (s : S)
      → cfg.rate_limit_enabled ≡ true
      → starts_with r.path "/api/" ≡ true
      → is_exempt r.path ≡ false
      → is_auth_path r.path ≡ true
      → let reply = rate_limit_middleware T sha256 cfg redis call_next now r s in
        let before = counts.value (auth_key now r) s in
        (s' : S) × (counts.value (auth_key now r) s' ≡ suc before)
        × ((before < cfg.rate_limit_auth_requests)
              × ((result : RateLimitResult) × (reply
                    ≡ call_with_headers T sha256 cfg redis call_next result r s'))
            ⊎ (cfg.rate_limit_auth_requests ≤ before)
              × (reply.0.status_code ≡ 429)
              × (any (λ h. str_eq h.0 "Retry-After") reply.0.headers ≡ true)
              × (reply.1 ≡ s'))
  unfolding rate_limit_middleware limit_for refusal limit_headers result_of
  rate_limit_middleware-auth counts now r s on api counted auth =
      let limit = cfg.rate_limit_auth_requests in
      let before = counts.value (auth_key now r) s in
      let result = result_of now limit cfg.rate_limit_window_seconds (suc before) in
      let (s', checked, value) =
        check-count T redis (identity_key T sha256 cfg r) limit cfg.rate_limit_window_seconds counts
          now s in
      (
        s',
        value,
        elim (Bool-cases (leb (suc before) limit)) [
          | inl allowed ↦ inl (ground (arith, allowed), (result, ground (arith, checked, allowed)))
          | inr refused ↦ inr (
            ground (arith, refused),
            ground (arith, checked, refused),
            ground (arith, checked, refused),
            ground (arith, checked, refused),
          )
        ],
      )

  -- Where Redis fails, with the limiter on, a request for authentication gets 503 whatever
  -- `rate_limit_fail_open` says, and its handler is not run; what Redis counted stays counted.
  rate_limit_middleware_closed :
      (now : ℕ) (r : Request) (s : S)
      → cfg.rate_limit_enabled ≡ true
      → starts_with r.path "/api/" ≡ true
      → is_exempt r.path ≡ false
      → is_auth_path r.path ≡ true
      → let checked =
          check T redis now
            (identity_key T sha256 cfg r)
            cfg.rate_limit_auth_requests
            cfg.rate_limit_window_seconds
            s in
        checked.0 ≡ none
        → let reply = rate_limit_middleware T sha256 cfg redis call_next now r s in
          (reply.0.status_code ≡ 503) × (reply.1 ≡ checked.1)
  unfolding rate_limit_middleware limit_for refusal
  rate_limit_middleware_closed now r s on api counted auth fails = (ground arith, ground arith)

module _ {S : Type 0} (cfg : Limits) (call_next : Handler S) where
  -- With the check on, a request that changes something and carries a cookie with a token reaches its
  -- handler exactly where its header repeats a CSRF cookie that is not empty; otherwise it gets 403,
  -- and nothing changes.
  pub csrf_middleware-cookie :
      (r : Request) (s : S)
      → cfg.csrf_enabled ≡ true
      → is_unsafe r.method ≡ true
      → (is_given r.access_cookie ≡ true) ⊎ (is_given r.refresh_cookie ≡ true)
      → let reply = csrf_middleware cfg call_next r s in
        ((token : String) × (r.csrf_cookie ≡ some token)
          × (r.csrf_header ≡ some token)
          × (reply ≡ call_next r s))
        ⊎ (reply.0.status_code ≡ 403)
          × (reply.1 ≡ s)
          × ((token : String)
              → r.csrf_cookie ≡ some token
              → r.csrf_header ≡ some token
              → token ≡ "")
  unfolding csrf_middleware refusal
  csrf_middleware-cookie r s on unsafe cookie = elim (Option-cases r.csrf_cookie) [
    | inl e ↦ inr (ground (arith, e), ground (arith, e), λ t i k. cc)
    | inr (c, e) ↦ elim (Option-cases r.csrf_header) [
      | inl h ↦ inr (ground (arith, e, h), ground (arith, e, h), λ t i k. cc)
      | inr (d, h) ↦ elim (Bool-cases (str_eq c "")) [
        | inl empty ↦
            inr (ground (arith, e, h), ground (arith, e, h), λ t i k. ground (arith, eq_iff c ""))
        | inr full ↦ elim (Bool-cases (str_eq d c)) [
          | inl same ↦ inl (c, e, ground (arith, h, eq_iff d c), ground (arith, e, h))
          | inr other ↦ inr (
            ground (arith, e, h),
            ground (arith, e, h),
            λ t i k. ground (arith, eq_iff d c, eq_refl c),
          )
        ]
      ]
    ]
  ]
