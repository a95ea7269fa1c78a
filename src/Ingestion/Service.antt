-- ===== src/Ingestion/Service.antt =====
-- domain/jobs/ingestion_service.py and the changes of repositories/sources.py (app): starting,
-- executing and finishing a run. The adapter is that of the source's kind.
use job_finder_agent.Common.{
  ℕ, suc, Bool, true, false, ◌&&◌, not, Option, none, some, List, [], ◌∷◌, any, str_eq, filter_by,
  length, find, update_where, add, String, ◌==◌, if◌then◌else◌, Texts,
}
use job_finder_agent.Errors.Exceptions.{
  ingestion_already_running, source_not_found, unsupported_source_kind,
}
use job_finder_agent.Session.{
  Action, Result, ok, raise, other, app, ◌>>=◌, ◌>>◌, pure, query, modify, draw, commit_session,
  refresh_session,
}
use job_finder_agent.Notifications.Deliveries.{Failure}
use job_finder_agent.Notifications.Worker.{returned, failure, with_retries}
use job_finder_agent.Ingestion.Jobs.{
  Catalog, IngestionRun, running, succeeded, partial, failed, RawJobRecord, Outside,
  normalize_record, upsert,
}
use job_finder_agent.Ingestion.Runs.{
  Collected, Adapter, collect, source_for, active_run, Finish, finished, World, run_in,
}

module _ (T : Texts) (O : Outside) where
  unfoldable pub create_run : ℕ → Action Catalog IngestionRun
  create_run source_id = do
    id ← draw O.uuid4
    now ← draw O.now
    let run : IngestionRun = record {
      id = id;
      source_id = source_id;
      status = running;
      started_at = now;
      completed_at = none;
      fetched_count = 0;
      normalized_count = 0;
      created_count = 0;
      updated_count = 0;
      duplicate_count = 0;
      error_count = 0;
      error_summary = [];
    }
    modify (λ d. record d { runs = add run d.runs })
    commit_session
    refresh_session
    pure run

  unfoldable pub finish_run : ℕ → Finish → Action Catalog (Unit {0})
  finish_run run_id f = do
    now ← draw O.now
    modify (λ d. record d { runs = update_where (λ r. r.id == run_id) (finished f now) d.runs })
    commit_session
    refresh_session

  -- `start_run`; the Boolean of the result is `already_running`.
  unfoldable pub start_run :
      Bool → List String → ℕ → Option ℕ → World → Result (IngestionRun × Bool) × World
  unfolding source_for active_run create_run
  start_run has_redis kinds source_id user_id w = elim (source_for source_id user_id w.session.db) [
    | none ↦ (raise (app source_not_found), w)
    | some source ↦
        if not (any (λ k. str_eq k source.kind) kinds)
        then (raise (app unsupported_source_kind), w)
        else elim (active_run source_id w.session.db) [
          | some run ↦ (ok (run, true), w)
          | none ↦
              if has_redis && any (λ l. l == source_id) w.locks
              then (raise (app ingestion_already_running), w)
              else run_in (record w { locks = if has_redis then source_id ∷ w.locks else w.locks })
                  (create_run source_id >>= λ run. pure (run, false))
        ]
  ]

  -- The loop over the fetched records: how many were created, updated, and neither.
  unfoldable pub ingest_all : ℕ → String → List RawJobRecord → Action Catalog (ℕ × ℕ × ℕ)
  ingest_all source_id company [] = pure (0, 0, 0)
  ingest_all source_id company (r ∷ rs) = do
    (job, created, changed) ← upsert O source_id (normalize_record T O r company)
    (c, u, d) ← ingest_all source_id company rs
    pure (
      if created then suc c else c,
      if changed then suc u else u,
      if not created && not changed then suc d else d,
    )

  abbrev pub ingested : Option ℕ → Option String → List RawJobRecord → Action Catalog (ℕ × ℕ × ℕ)
  ingested (some source_id) (some company) rs = ingest_all source_id company rs
  ingested _ _ rs = pure (0, 0, 0)

  abbrev pub malformed_summary : ℕ → List (String × String)
  malformed_summary n = if n == 0 then [] else ("malformed_records", T.decimal n) ∷ []

  -- What `execute_run` does after its fetch.
  unfoldable pub record_success :
      ℕ → Option ℕ → Option String → Collected → Action Catalog (Unit {0})
  unfolding ingest_all finish_run
  record_success run_id source_id company c = do
    run ← query (λ d. find (λ r. r.id == run_id) d.runs)
    elim run [
      | none ↦ pure tt
      | some r ↦ do
        (created, updated, duplicate) ← ingested source_id company c.fetched
        finish_run run_id (record {
          status = if c.malformed == 0 then succeeded else partial;
          fetched_count = length c.fetched;
          error_count = c.malformed;
          error_summary = malformed_summary c.malformed;
          created_count = created;
          updated_count = updated;
          duplicate_count = duplicate;
        })
    ]

  -- The handler of an AdapterError, which raises it again.
  unfoldable pub record_failure : ℕ → Collected → Failure → Action Catalog (Unit {0})
  unfolding finish_run
  record_failure run_id c e = do
    run ← query (λ d. find (λ r. r.id == run_id) d.runs)
    elim run [
      | none ↦ λ s. (raise (other e.message), s)
      | some r ↦
          finish_run run_id (record {
            status = failed;
            fetched_count = length c.fetched;
            error_count = 1;
            error_summary = ("message", e.message) ∷ [];
            created_count = 0;
            updated_count = 0;
            duplicate_count = 0;
          })
          >> (λ s. (raise (other e.message), s))
    ]

  -- `execute_run` without its `finally`. Only an AdapterError is recorded.
  unfoldable pub execute_run : Adapter → ℕ → Option ℕ → Option String → Action Catalog (Unit {0})
  unfolding collect record_success record_failure
  execute_run adapter run_id source_id company s =
      let (r, c) =
        with_retries (collect adapter) 3
          (record { fetch = s.ticks; fetched = []; malformed = 0; escaped = false }) in
      elim r [
        | returned _ ↦ record_success run_id source_id company c s
        | failure e ↦
            if c.escaped then (raise (other e.message), s) else record_failure run_id c e s
      ]

  -- `finally`: the source's lock is given back.
  unfoldable pub execute_run_locked :
      Bool → Adapter → ℕ → Option ℕ → Option String → World → Result (Unit {0}) × World
  unfolding execute_run
  execute_run_locked has_redis adapter run_id source_id company w =
      let (r, w') = run_in w (execute_run adapter run_id source_id company) in
      elim source_id [
        | none ↦ (r, w')
        | some id ↦ (
          r,
          record w' {
            locks = if has_redis then filter_by (λ l. not (l == id)) w'.locks else w'.locks;
          },
        )
      ]
