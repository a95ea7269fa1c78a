-- ===== src/Ingestion/Adapters/Fetch.antt =====
-- `get_json` of ingestion/base.py and the loop over the pages of both adapters (app). The waiting of the
-- rate limiter is left out; a reply is what the HTTP client answers for a page.
use job_finder_agent.Common.{
  ℕ, zero, suc, ◌+◌, Bool, true, false, ◌||◌, Option, none, some, List, [], ◌++◌, String, str_eq,
  ◌⧺◌, leb, ◌==◌, if◌then◌else◌,
}
use job_finder_agent.Notifications.Deliveries.{Failure}
use job_finder_agent.Ingestion.Adapters.Json.{
  Json, array, nil, Error, Python, value, error, get, is_falsy, iterate,
}
use job_finder_agent.Ingestion.Adapters.Postings.{
  RawRecord, Yielded, yield_all, greenhouse_record, lever_record,
}

-- A request that fails, or a response with its status, its Retry-After and its body, which may be no
-- JSON.
pub data Reply : Type 0 where
  unreachable : Reply
  response : ℕ → Option String → Option Json → Reply

-- What ends a fetch: nothing, an AdapterError, an error on a value, or a body that is no JSON.
pub data End : Type 0 where
  exhausted : End
  adapter_error : Failure → End
  crashed : Error → End
  not_json : End

pub data PageAnswer : Type 0 where
  json : Json → PageAnswer
  stop : End → PageAnswer

abbrev adapter_failure : Bool → String → Failure
adapter_failure retryable message = record {
  retryable = retryable;
  is_connection = false;
  status_code = none;
  message = message;
}

abbrev suffix_of : Option String → String
suffix_of none = ""
suffix_of (some t) = if str_eq t "" then "" else "; retry-after=" ⧺ t

module _ (decimal : ℕ → String) where
  unfoldable pub get_json : Reply → PageAnswer
  get_json unreachable = stop (adapter_error (adapter_failure true "source request failed"))
  get_json (response status retry_after body) =
      let message = "source returned HTTP " ⧺ decimal status in
      if status == 429 || leb 500 status
      then stop (adapter_error (adapter_failure true (message ⧺ suffix_of retry_after)))
      else if leb 400 status
      then stop (adapter_error (adapter_failure false message))
      else elim body [ none ↦ stop not_json | some payload ↦ json payload ]

  pub record Fetching : Type 0 where
    pub postings : List RawRecord
    pub malformed_count : ℕ
    pub ended : End

  -- The records before a stop are kept: the generator has yielded them.
  abbrev stopped : End → Fetching
  stopped e = record { postings = []; malformed_count = 0; ended = e }

  abbrev pub before : Yielded → Fetching → Fetching
  before y later = elim y.raised [
    | none ↦ record later {
      postings = y.records ++ later.postings;
      malformed_count = y.malformed + later.malformed_count;
    }
    | some e ↦ record { postings = y.records; malformed_count = y.malformed; ended = crashed e }
  ]

  module _ (characters : String → List String) (jobs_of : Json → Python Json)
      (read : Json → Python RawRecord) (replies : ℕ → Reply) where
    -- From a page on, `n` pages at most.
    unfoldable pub fetch_pages : ℕ → ℕ → Fetching
    unfolding get_json yield_all
    fetch_pages page zero = stopped exhausted
    fetch_pages page (suc n) =
        let later = fetch_pages (suc page) n in
        elim (get_json (replies page)) [
          | stop e ↦ stopped e
          | json payload ↦ elim (jobs_of payload) [
            | error e ↦ stopped (crashed e)
            | value jobs ↦
                if is_falsy jobs then stopped exhausted else elim (iterate characters jobs) [
                  | error e ↦ stopped (crashed e)
                  | value entries ↦ before (yield_all read entries) later
                ]
          ]
        ]

  module _ (characters : String → List String) (json_text : Json → String) (replies : ℕ → Reply)
      (max_pages : ℕ) where
    -- `GreenhouseAdapter.fetch` counts its pages from 1, and `LeverAdapter.fetch` from 0.
    unfoldable pub fetch_greenhouse : Fetching
    unfolding fetch_pages
    fetch_greenhouse =
        fetch_pages characters (λ payload. get payload "jobs" (array nil))
          (greenhouse_record json_text) replies 1 max_pages

    unfoldable pub fetch_lever : Fetching
    unfolding fetch_pages
    fetch_lever =
        fetch_pages characters (λ payload. value payload) (lever_record json_text) replies 0
          max_pages
