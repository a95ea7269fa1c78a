-- ===== src/Ingestion/Runs.antt =====
-- The queries of repositories/sources.py and the data of domain/jobs/ingestion_service.py (app). The locks in Redis stand beside
-- the database's session, which rolls back without them; a lock's expiry is not modelled. An adapter
-- is a parameter: the records that one fetch yields, the malformed ones that it counts, and the
-- exception that may end it, an AdapterError or any other one, an AttributeError of an entry, say. The
-- fields of a record are texts.
use job_finder_agent.Common.{
  ℕ, suc, Bool, true, false, ◌&&◌, Option, none, some, List, [], ◌∷◌, ◌++◌, any, filter_by, find,
  String, ltb, ◌==◌, if◌then◌else◌,
}
use job_finder_agent.Errors.Exceptions.{run_not_found}
use job_finder_agent.Session.{Action, Session, Result, ◌>>=◌, pure, fail, query}
use job_finder_agent.Notifications.Deliveries.{Failure}
use job_finder_agent.Notifications.Worker.{Outcome, returned, failure}
use job_finder_agent.Ingestion.Jobs.{
  Catalog, Source, IngestionRun, RunStatus, running, RawJobRecord,
}

pub record Fetched : Type 0 where
  pub records : List RawJobRecord
  pub malformed : ℕ
  pub error : Option Failure
  -- The exception is no AdapterError.
  pub escapes : Bool

-- What `collect` has gathered, over all its attempts, and the number of the next fetch.
pub record Collected : Type 0 where
  pub fetch : ℕ
  pub fetched : List RawJobRecord
  pub malformed : ℕ
  -- An exception that is no AdapterError ended the last fetch.
  pub escaped : Bool

abbrev pub Adapter : Type 0
Adapter = ℕ → Fetched

-- `collect`: the records of a fetch are added to those gathered before, also if it fails.
unfoldable pub collect : Adapter → Collected → Outcome (Unit {0}) × Collected
collect adapter c =
    let f = adapter c.fetch in
    let c' : Collected = record {
      fetch = suc c.fetch;
      fetched = c.fetched ++ f.records;
      malformed = f.malformed;
      escaped = f.escapes;
    } in
    elim f.error [
      | none ↦ (returned tt, c')
      | some e ↦ (failure (if f.escapes then record e { retryable = false } else e), c')
    ]

-- `SourceRepository.get`, `get_for_user`, `get_active_run`, `get_run` and `get_run_for_user`
unfoldable pub source_for : ℕ → Option ℕ → Catalog → Option Source
source_for source_id user_id d = elim user_id [
  | none ↦ find (λ x. x.id == source_id) d.sources
  | some u ↦ find (λ x. (x.id == source_id) && (x.user_id == u)) d.sources
]

abbrev pub is_running : RunStatus → Bool
is_running running = true
is_running _ = false

abbrev pub runs_now : ℕ → IngestionRun → Bool
runs_now source_id r = (r.source_id == source_id) && is_running r.status

-- The run that started last.
unfoldable pub newest : List IngestionRun → Option IngestionRun
newest [] = none
newest (r ∷ rs) = elim (newest rs) [
  | none ↦ some r
  | some q ↦ if ltb r.started_at q.started_at then some q else some r
]

unfoldable pub active_run : ℕ → Catalog → Option IngestionRun
unfolding newest
active_run source_id d = newest (filter_by (runs_now source_id) d.runs)

unfoldable pub run_for_user : ℕ → ℕ → Action Catalog IngestionRun
run_for_user run_id user_id = do
  row ← query (λ d.
      find
        (λ r.
          (r.id == run_id) && any (λ x. (x.id == r.source_id) && (x.user_id == user_id)) d.sources)
        d.runs)
  elim row [ none ↦ fail run_not_found | some r ↦ pure r ]

-- What `finish_run` writes.
pub record Finish : Type 0 where
  pub status : RunStatus
  pub fetched_count : ℕ
  pub error_count : ℕ
  pub error_summary : List (String × String)
  pub created_count : ℕ
  pub updated_count : ℕ
  pub duplicate_count : ℕ

abbrev pub finished : Finish → ℕ → IngestionRun → IngestionRun
finished f now r = record r {
  status = f.status;
  completed_at = some now;
  fetched_count = f.fetched_count;
  normalized_count = f.fetched_count;
  error_count = f.error_count;
  error_summary = f.error_summary;
  created_count = f.created_count;
  updated_count = f.updated_count;
  duplicate_count = f.duplicate_count;
}

-- The session, and the sources whose lock is held.
pub record World : Type 0 where
  pub session : Session Catalog
  pub locks : List ℕ

abbrev pub run_in : {A : Type 0} → World → Action Catalog A → Result A × World
run_in w m = let (r, s) = m w.session in (r, record { session = s; locks = w.locks })
