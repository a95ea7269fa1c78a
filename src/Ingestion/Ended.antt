-- ===== src/Ingestion/Ended.antt =====
-- A run that a worker takes up ends.
use job_finder_agent.Common.{
  ℕ, ◌≡◌, ◌⊎◌, true, false, some, [], find, String, ◌==◌, Texts, if◌then◌else◌,
}
use job_finder_agent.Session.{Session, Result, ok, raise, other, Exception}
use job_finder_agent.Notifications.Deliveries.{Failure}
use job_finder_agent.Notifications.Worker.{Outcome, returned, failure, with_retries}
use job_finder_agent.Ingestion.Jobs.{Catalog, IngestionRun, Outside, Source, failed}
use job_finder_agent.Ingestion.Runs.{Adapter, Collected, collect, World, is_running}
use job_finder_agent.Ingestion.Service.{record_success, record_failure, execute_run_locked}

module _ (T : Texts) (O : Outside) where
  -- The row of the run, once it has ended.
  abbrev HasEnded : ℕ → Result (Unit {0}) → Session Catalog → Type 0
  HasEnded run_id result s =
      (row : IngestionRun) × (find (λ x. x.id == run_id) s.saved.runs ≡ some row)
      × (is_running row.status ≡ false)
      × ((result ≡ ok tt) ⊎ ((e : Exception) × (result ≡ raise e) × (row.status ≡ failed)))

  abbrev recorded :
      ℕ
      → ℕ
      → String
      → Outcome (Unit {0}) × Collected
      → Session Catalog
      → Result (Unit {0}) × Session Catalog
  recorded run_id source_id company (returned _, c) s =
      record_success T O run_id (some source_id) (some company) c s
  recorded run_id source_id company (failure e, c) s =
      if c.escaped then (raise (other e.message), s) else record_failure T O run_id c e s

  -- The exception that ended the fetches is no AdapterError, and nothing is written.
  abbrev HasEscaped :
      Outcome (Unit {0}) × Collected
      → Result (Unit {0})
      → Session Catalog
      → Session Catalog
      → Type 0
  HasEscaped fetched result s s' =
      (e : Failure) × (fetched.0 ≡ failure e)
      × (fetched.1.escaped ≡ true)
      × (result ≡ raise (other e.message))
      × (s' ≡ s)

module _ (T : Texts) (O : Outside) (adapter_of : Source → Adapter) where
  -- What the attempts to fetch come to.
  abbrev pub fetches : Source → World → Outcome (Unit {0}) × Collected
  fetches source w =
      with_retries (collect (adapter_of source)) 3
        (record { fetch = w.session.ticks; fetched = []; malformed = 0; escaped = false })

  abbrev executed : Source → ℕ → ℕ → World → Result (Unit {0}) × World
  executed source run_id source_id w =
      execute_run_locked T O true (adapter_of source) run_id (some source_id) (some source.name) w
