-- ===== src/Ingestion/Workers.antt =====
-- workers/tasks/ingestion.py and workers/ingestion.py (app): what a worker does with a run that is handed
-- to it. The adapter of a source stands for the one that its kind and its configuration give. Tracing and
-- the retries of Celery are left out.
use job_finder_agent.Common.{ℕ, true, none, some, Texts}
use job_finder_agent.Session.{Result, ok, raise}
use job_finder_agent.Ingestion.Jobs.{Source, Outside}
use job_finder_agent.Ingestion.Runs.{Adapter, World, source_for}
use job_finder_agent.Ingestion.Service.{execute_run_locked}

pub data TaskResult : Type 0 where
  skipped : TaskResult
  completed : ℕ → TaskResult

module _ (T : Texts) (O : Outside) (adapter_of : Source → Adapter) where
  unfoldable pub execute_ingestion_run : Source → ℕ → ℕ → World → Result (Unit {0}) × World
  unfolding execute_run_locked
  execute_ingestion_run source run_id source_id =
      execute_run_locked T O true (adapter_of source) run_id (some source_id) (some source.name)

  -- The task `run_ingestion`.
  unfoldable pub run_ingestion : ℕ → ℕ → World → Result TaskResult × World
  unfolding execute_ingestion_run source_for
  run_ingestion source_id run_id w = elim (source_for source_id none w.session.db) [
    | none ↦ (ok skipped, w)
    | some source ↦
        let (r, w') = execute_ingestion_run source run_id source_id w in
        elim r [ ok _ ↦ (ok (completed run_id), w') | raise e ↦ (raise e, w') ]
  ]

  -- `dispatch_ingestion_run`, which lets no exception of a run through.
  unfoldable pub dispatch_ingestion_run : ℕ → ℕ → World → World
  unfolding execute_ingestion_run source_for
  dispatch_ingestion_run source_id run_id w = elim (source_for source_id none w.session.db) [
    | none ↦ w
    | some source ↦ (execute_ingestion_run source run_id source_id w).1
  ]
