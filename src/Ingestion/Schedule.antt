-- ===== src/Ingestion/Schedule.antt =====
-- scheduler/service.py (app): when a source is due, and the scheduler's tick. The session and the
-- services are parameters: a runner is a step on a state that returns or raises.
use job_finder_agent.Common.{
  ℕ, ◌+◌, Bool, true, false, not, Option, none, some, List, [], ◌∷◌, String, starts_with, leb, ltb,
  if◌then◌else◌, Texts,
}
use job_finder_agent.Session.{Result}
use job_finder_agent.Ingestion.Jobs.{Source}

-- `parse_int` is Python's `int`, with 0 for a negative number; `none` is a ValueError.
unfoldable pub interval_seconds : Texts → (String → Option ℕ) → Option String → Option ℕ
interval_seconds T parse_int none = none
interval_seconds T parse_int (some schedule) =
    if starts_with schedule "interval:"
    then elim (parse_int (T.from 9 schedule)) [
      | none ↦ none
      | some value ↦ if ltb 0 value then some value else none
    ]
    else none

module _ (T : Texts) (parse_int : String → Option ℕ) where
  -- Moments carry their time zone here: they are seconds.
  unfoldable pub is_due : ℕ → Source → Bool
  unfolding interval_seconds
  is_due now source = elim (interval_seconds T parse_int source.schedule) [
    | none ↦ false
    | some seconds ↦
        if not source.enabled
        then false
        else elim source.last_success_at [ none ↦ true | some last ↦ leb (last + seconds) now ]
  ]

  module _ {S A : Type 0} (runner : Source → S → Result A × S) where
    -- `SchedulerService.tick` over the listed sources: an exception is a result as well.
    unfoldable pub tick : ℕ → List Source → S → List (Result A) × S
    unfolding is_due
    tick now [] s = ([], s)
    tick now (source ∷ sources) s =
        let (r, s') = runner source s in
        let ran = tick now sources s' in
        let skipped = tick now sources s in
        if is_due now source then (r ∷ ran.0, ran.1) else skipped
