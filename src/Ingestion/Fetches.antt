-- ===== src/Ingestion/Fetches.antt =====
-- What a run has fetched after a retry.
use job_finder_agent.Common.{ℕ, suc, ◌≡◌, true, false, none, some, [], ◌++◌, arith}
use job_finder_agent.Notifications.Deliveries.{Failure}
use job_finder_agent.Notifications.Worker.{returned, with_retries}
use job_finder_agent.Ingestion.Runs.{Adapter, collect}

module _ (adapter : Adapter) where
  -- If a fetch fails in a way that can be retried and the next one succeeds, the run has the records of
  -- both: what the failed fetch yielded is kept, and comes before what the other one yielded.
  pub collect_again :
      (n : ℕ) (e : Failure)
      → (adapter n).error ≡ some e
      → (adapter n).escapes ≡ false
      → e.retryable ≡ true
      → (adapter (suc n)).error ≡ none
      → let (r, c) =
          with_retries
            (collect adapter)
            3
            (record { fetch = n; fetched = []; malformed = 0; escaped = false }) in
        (r ≡ returned tt)
        × (c.fetched ≡ (adapter n).records ++ (adapter (suc n)).records)
        × (c.malformed ≡ (adapter (suc n)).malformed)
  unfolding collect with_retries
  collect_again n e broken known again works = ground (arith, broken, known, again, works)
