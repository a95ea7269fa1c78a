-- ===== src/Application/Counted.antt =====
-- Each request is counted once and bears its identifier.
use job_finder_agent.Common.{
  ℕ, ◌≡◌, ◌⊎◌, refl, false, none, some, str_eq, add, String, leb, if◌then◌else◌, inl, inr, arith,
}
use job_finder_agent.Session.{Result, Result-cases, ok, raise, Exception}
use job_finder_agent.Errors.Handlers.{Response}
use job_finder_agent.RateLimit.Headers.{set_header, header_of, header_of-set_header}
use job_finder_agent.RateLimit.Middleware.{Request}
use job_finder_agent.Application.{
  Monitored, Raising, id_for, labelled, record_http_request, request_id_middleware,
}

module _ {S : Type 0} (uuid_text : ℕ → String) (route_of : Request → String)
    (call_next : Raising S) where
  abbrev pub inner : String → Request → Monitored S → Result Response × S
  inner id r m = call_next (record r { request_id = id }) m.state

  -- The identifier that a request is to have.
  abbrev pub IsIdentifier : Request → Monitored S → String → Type 0
  IsIdentifier r m id =
      ((given : String) → r.given_id ≡ some given → str_eq given "" ≡ false → id ≡ given)
      × (r.given_id ≡ none → id ≡ uuid_text m.ticks)
      × (r.given_id ≡ some "" → id ≡ uuid_text m.ticks)

  id_for-IsIdentifier :
      (r : Request) (m : Monitored S) → IsIdentifier r m (id_for uuid_text r m.ticks).0
  unfolding id_for
  id_for-IsIdentifier r m = (
    (λ given h full. ground (arith, h, full)),
    (λ h. ground (arith, h)),
    (λ h. ground (arith, h)),
  )

  -- A request is counted once, with its method, its route and the status of its answer, or with 500 where
  -- an exception passes, and once more among the errors exactly if that is 500 or more. The handler is
  -- given one identifier, and every answer bears it: the one that the client sent if it is not empty, and
  -- a new one otherwise.
  pub request_id_middleware-counted :
      (r : Request) (m : Monitored S)
      → let (result, m') = request_id_middleware uuid_text route_of call_next r m in
        let count = λ (status : ℕ).
          (m'.metrics.http_requests ≡ add (labelled route_of r status) m.metrics.http_requests)
          × (m'.metrics.http_errors ≡ (
              if leb 500 status
              then add (labelled route_of r status) m.metrics.http_errors
              else m.metrics.http_errors)) in
        (id : String) × IsIdentifier r m id
        × (((e : Exception) × ((inner id r m).0 ≡ raise e) × (result ≡ raise e) × count 500)
            ⊎ ((answer response : Response) × ((inner id r m).0 ≡ ok answer)
                × (result ≡ ok response)
                × (response.status_code ≡ answer.status_code)
                × count answer.status_code
                × (header_of "X-Request-ID" response.headers ≡ some id)))
  unfolding request_id_middleware record_http_request
  request_id_middleware-counted r m = (
    (id_for uuid_text r m.ticks).0,
    id_for-IsIdentifier r m,
    elim (Result-cases (inner (id_for uuid_text r m.ticks).0 r m).0) [
      | inl (answer, e) ↦
          let id = (id_for uuid_text r m.ticks).0 in
          inr (
            answer,
            record answer { headers = set_header ("X-Request-ID", id) answer.headers },
            e,
            ground (arith, e),
            refl,
            (ground (arith, e), ground (arith, e)),
            header_of-set_header "X-Request-ID" id answer.headers,
          )
      | inr (e, h) ↦ inl (e, h, ground (arith, h), (ground (arith, h), ground (arith, h)))
    ],
  )
