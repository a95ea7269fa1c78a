-- ===== src/Ingestion/Scheduler.antt =====
-- processes/scheduler.py (app): `schedule_due_sources`. What is handed to the workers is a queue of
-- pairs of a source and a run.
use job_finder_agent.Common.{
  ℕ, suc, Bool, true, false, ◌||◌, Option, some, List, [], ◌∷◌, add, filter_by, String, Texts,
  if◌then◌else◌,
}
use job_finder_agent.Errors.Exceptions.{
  ErrorClass, ingestion_already_running, source_not_found, unsupported_source_kind,
}
use job_finder_agent.Errors.Classes.{is_instance}
use job_finder_agent.Session.{Result, ok, raise, app, other}
use job_finder_agent.Ingestion.Jobs.{Source, Outside}
use job_finder_agent.Ingestion.Runs.{World}
use job_finder_agent.Ingestion.Service.{start_run}
use job_finder_agent.Ingestion.Schedule.{is_due}

pub record Dispatch : Type 0 where
  pub world : World
  pub queue : List (ℕ × ℕ)

-- `except (IngestionAlreadyRunning, SourceNotFound, UnsupportedSourceKind)`
abbrev is_skipped : ErrorClass → Bool
is_skipped c =
    is_instance c ingestion_already_running
    || is_instance c source_not_found
    || is_instance c unsupported_source_kind

-- The clock is read once.
module _ (T : Texts) (O : Outside) (parse_int : String → Option ℕ) (kinds : List String)
    (now : ℕ) where
  -- One source of the loop, and whether a run of it was handed over.
  unfoldable pub schedule_source : Source → Dispatch → Result Bool × Dispatch
  schedule_source source x =
      if is_due T parse_int now source
      then (let (r, w) = start_run T O true kinds source.id (some source.user_id) x.world in
          elim r [
            | ok found ↦
                if found.1
                then (ok false, record x { world = w })
                else (ok true, record { world = w; queue = add (source.id, found.0.id) x.queue })
            | raise e ↦ elim e [
              | app c ↦ (if is_skipped c then ok false else raise (app c), record x { world = w })
              | other text ↦ (raise (other text), record x { world = w })
            ]
          ])
      else (ok false, x)

  -- The loop, and the number of runs that were handed over.
  unfoldable pub schedule_all : List Source → Dispatch → Result ℕ × Dispatch
  unfolding schedule_source
  schedule_all [] x = (ok 0, x)
  schedule_all (source ∷ sources) x =
      let (r, x') = schedule_source source x in
      elim r [
        | ok scheduled ↦
            let (rest, x'') = schedule_all sources x' in
            elim rest [
              | ok n ↦ (ok (if scheduled then suc n else n), x'')
              | raise e ↦ (raise e, x'')
            ]
        | raise e ↦ (raise e, x')
      ]

  -- `schedule_due_sources`
  unfoldable pub schedule_due_sources : Dispatch → Result ℕ × Dispatch
  unfolding schedule_all
  schedule_due_sources x =
      schedule_all (filter_by (λ source. source.enabled) x.world.session.db.sources) x
