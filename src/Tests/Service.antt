-- ===== src/Tests/Service.antt =====
-- The creation of a source, a run by a worker, a message by Telegram, release notes, and a request through
-- all the middleware.
use job_finder_agent.Common.{
  ◌⧺◌, ◌++◌, ℕ, ◌+◌, ◌≡◌, ◌⊎◌, refl, true, false, none, some, List, [], ◌∷◌, String, find, map, add,
  leb, if◌then◌else◌, ◌==◌,
}
use mathlib.Core.List.{Perm}
use job_finder_agent.Session.{
  Session, Exception, ok, raise, next_fault, later_faults, commit_session, flush_session,
  refresh_session,
}
use job_finder_agent.Sources.{
  SourceInput, SourceResponse, input_of, create_source, list_sources, is_acceptable,
}
use job_finder_agent.Sources.Listed.{created, create_source-list_sources}
use job_finder_agent.Ingestion.Adapters.Json.{end}
use job_finder_agent.Ingestion.Jobs.{Source, failed}
use job_finder_agent.Ingestion.Runs.{World, Adapter}
use job_finder_agent.Notifications.Deliveries.{Delivery, is_retryable, deliver}
use job_finder_agent.Notifications.Deliveries
use job_finder_agent.Notifications.Providers.{
  HttpClient, NotificationMessage, replied, plain_error, send_telegram,
}
use job_finder_agent.Notifications.Telegram.{IsSettled, deliver-send_telegram}
use job_finder_agent.Release.{categorize, concat_map, headings, render}
use job_finder_agent.Release.Grouped.{titled, listing, render-perm}
use job_finder_agent.Errors.Handlers.{Response}
use job_finder_agent.RateLimit.Headers.{header_of}
use job_finder_agent.Application.{Monitored, labelled, answering, request_id_middleware}
use job_finder_agent.Application.Counted.{IsIdentifier, inner, request_id_middleware-counted}
use job_finder_agent.Tests.Requests.{texts, login_request, handler, counters, unused}
use job_finder_agent.Tests.Work.{board, catalog, address, done}
use job_finder_agent.Tests.Upkeep.{everything}

abbrev lever : SourceInput
lever = record { kind = "lever"; name = "Acme"; config = end; schedule = none; enabled = true }

abbrev listed_board : SourceResponse
listed_board = record { id = "id"; source = input_of board }

create_source-list_sources_example :
    let new = created (λ t. t + 100) 1 lever everything (λ u. "id") in
    let (r, s') = create_source (λ u. "id") (λ t. t + 100) 1 lever everything in
    (r ≡ ok new)
    × ((list_sources (λ u. "id") 1 (record s' { db = s'.saved })).0 ≡ (
        if 1 == 1
        then ok (add new (listed_board ∷ []))
        else (list_sources (λ u. "id") 1 everything).0))
unfolding list_sources is_acceptable
create_source-list_sources_example =
    create_source-list_sources (λ t. t + 100) 1 lever everything (λ u. "id") (listed_board ∷ []) 1
      refl refl refl

abbrev empty_board : Source → Adapter
empty_board source n = record { records = []; malformed = 0; error = none; escapes = false }

abbrev locked : World
locked = record { session = catalog; locks = 4 ∷ [] }

-- The service is overloaded.
abbrev client : HttpClient
client = record {
  post = λ url fields. replied 429 none;
  transport_error = plain_error;
  status_error = λ status. plain_error "429";
}

abbrev message : NotificationMessage
message = record { subject = "s"; body = "b" }

abbrev given_up : Delivery
given_up = record done {
  status = Deliveries.failed;
  attempt_count = 1;
  provider_message_id = none;
  error = some "429";
}

abbrev waiting : Session (List Delivery)
waiting = record {
  db = record given_up { attempt_count = 0 } ∷ [];
  saved = [];
  faults = [];
  ticks = 0;
}

deliver-send_telegram_example : IsSettled given_up.status
unfolding deliver find send_telegram is_retryable commit_session flush_session refresh_session
    next_fault later_faults
deliver-send_telegram_example =
    deliver-send_telegram client
      (record {
        transport_error-IsForeign = λ m. (refl, refl, refl);
        status_error-IsForeign = λ status. (refl, refl, refl);
      })
      "t" "c" message (λ t. t) address waiting given_up refl

abbrev commits : List String
commits = "feat: a" ∷ "fix(api): b" ∷ "c" ∷ []

render-perm_example :
    (render texts (λ x. x) commits "1" "f00" "now"
      ≡ texts.join "\n" (
          (("# Release " ⧺ "1")
            ∷ ""
            ∷ ("- Commit: `" ⧺ "f00" ⧺ "`")
            ∷ ("- Generated: " ⧺ "now")
            ∷ ""
            ∷ [])
          ++ concat_map
              (λ category. listing texts category (titled texts commits category))
              headings)
        ⧺ "\n")
    × Perm (concat_map (titled texts commits) headings) (map (λ s. (categorize texts s).1) commits)
render-perm_example = render-perm texts (λ x. x) commits "1" "f00" "now"

abbrev monitored : Monitored (String → ℕ)
monitored = record {
  state = unused;
  metrics = record { counters = []; http_requests = []; http_errors = [] };
  ticks = 0;
}

request_id_middleware-counted_example :
    let (result, m') =
      request_id_middleware (λ t. "id") (λ r. r.path) (answering handler) login_request monitored in
    let count = λ (status : ℕ).
      (m'.metrics.http_requests ≡ add (labelled (λ r. r.path) login_request status) [])
      × (m'.metrics.http_errors ≡ (
          if leb 500 status then add (labelled (λ r. r.path) login_request status) [] else [])) in
    (id : String) × IsIdentifier
      (λ t. "id")
      (λ r. r.path)
      (answering handler)
      login_request
      monitored
      id
    × (((e : Exception) × ((inner
              (λ t. "id")
              (λ r. r.path)
              (answering handler)
              id
              login_request
              monitored).0
            ≡ raise e)
          × (result ≡ raise e)
          × count 500)
        ⊎ ((answer response : Response) × ((inner
                (λ t. "id")
                (λ r. r.path)
                (answering handler)
                id
                login_request
                monitored).0
              ≡ ok answer)
            × (result ≡ ok response)
            × (response.status_code ≡ answer.status_code)
            × count answer.status_code
            × (header_of "X-Request-ID" response.headers ≡ some id)))
request_id_middleware-counted_example =
    request_id_middleware-counted (λ t. "id") (λ r. r.path) (answering handler) login_request
      monitored
