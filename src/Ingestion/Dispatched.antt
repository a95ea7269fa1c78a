-- ===== src/Ingestion/Dispatched.antt =====
-- What the scheduler hands over.
use job_finder_agent.Common.{
  ℕ, ◌+◌, ◌≡◌, ap, inl, inr, ◌⊎◌, ◌≢◌, Bool, true, ◌&&◌, Option, some, List, [], ◌∷◌, arith, add,
  any, All, All-append, length, length-append, filter_by, String, Texts, ◌==◌, Bool-cases,
}
use job_finder_agent.Session.{Result, Exception, ok, raise, Result-cases}
use job_finder_agent.Ingestion.Jobs.{Source, Outside, IngestionRun}
use job_finder_agent.Ingestion.Runs.{World}
use job_finder_agent.Ingestion.Service.{start_run}
use job_finder_agent.Ingestion.Schedule.{is_due}
use job_finder_agent.Ingestion.Queued.{is_stored, schedule_all-IsQueueSaved}
use job_finder_agent.Ingestion.Scheduler.{
  Dispatch, schedule_source, schedule_all, schedule_due_sources,
}

module _ (T : Texts) (O : Outside) (parse_int : String → Option ℕ) (kinds : List String)
    (now : ℕ) where
  abbrev one : Source → Dispatch → Result Bool × Dispatch
  one = schedule_source T O parse_int kinds now

  abbrev loop : List Source → Dispatch → Result ℕ × Dispatch
  loop = schedule_all T O parse_int kinds now

  abbrev started : Source → Dispatch → Result (IngestionRun × Bool) × World
  started source x = start_run T O true kinds source.id (some source.user_id) x.world

  -- Either nothing is handed over, or a run of the source, which is then due.
  schedule_source-cases :
      (source : Source) (x : Dispatch)
      → ((one source x).1.queue ≡ x.queue) × ((one source x).0 ≢ ok true)
        ⊎ (is_due T parse_int now source ≡ true)
          × ((one source x).0 ≡ ok true)
          × ((run : ℕ) × ((one source x).1.queue ≡ add (source.id, run) x.queue))
  unfolding schedule_source
  schedule_source-cases source x = elim (Bool-cases (is_due T parse_int now source)) [
    | inr idle ↦ inl (ground (arith, idle), ground (arith, idle))
    | inl due ↦ elim (Result-cases (started source x).0) [
      | inl ((run, already), e) ↦ elim (Bool-cases already) [
        | inl held ↦ inl (ground (arith, due, e, held), ground (arith, due, e, held))
        | inr fresh ↦
            inr (due, ground (arith, due, e, fresh), (run.id, ground (arith, due, e, fresh)))
      ]
      | inr (raised, e) ↦ inl (ground (arith, due, e), ground (arith, due, e))
    ]
  ]

  schedule_all-count :
      (sources : List Source) (x : Dispatch) (n : ℕ)
      → (schedule_all T O parse_int kinds now sources x).0 ≡ ok n
      → length (schedule_all T O parse_int kinds now sources x).1.queue ≡ length x.queue + n
  unfolding schedule_all
  schedule_all-count [] x n h = ground arith
  schedule_all-count (source ∷ sources) x n h =
      let x' = (one source x).1 in
      let rest = schedule_all T O parse_int kinds now sources x' in
      elim (Result-cases (one source x).0) [
        | inr (raised, e) ↦ ground (arith, e)
        | inl (scheduled, e) ↦ elim (Result-cases rest.0) [
          | inr (raised, k) ↦ ground (arith, e, k)
          | inl (m, k) ↦ elim (schedule_source-cases source x) [
            | inl (same, nothing) ↦
                ground (arith, e, k, same, nothing, schedule_all-count sources x' m k)
            | inr (due, done, (run, added)) ↦ ground (
              arith,
              e,
              k,
              done,
              schedule_all-count sources x' m k,
              ap (λ q. length q) added,
              length-append x.queue ((source.id, run) ∷ []),
            )
          ]
        ]
      ]

  module _ (Q : ℕ × ℕ → Type 0) where
    -- A run of the source may be handed over.
    abbrev Allows : Source → Type 0
    Allows source = is_due T parse_int now source ≡ true → (run : ℕ) → Q (source.id, run)

    schedule_source-All :
        (source : Source) (x : Dispatch)
        → Allows source
        → All Q x.queue
        → All Q (one source x).1.queue
    schedule_source-All source x allows before = elim (schedule_source-cases source x) [
      | inl (same, nothing) ↦ rw same before
      | inr (due, done, (run, added)) ↦
          rw added (All-append Q x.queue ((source.id, run) ∷ []) before (allows due run, tt))
    ]

    schedule_all-All :
        (sources : List Source) (x : Dispatch)
        → All Allows sources
        → All Q x.queue
        → All Q (schedule_all T O parse_int kinds now sources x).1.queue
    unfolding schedule_all
    schedule_all-All [] x allows before = before
    schedule_all-All (source ∷ sources) x allows before =
        let first = schedule_source-All source x allows.0 before in
        let x' = (one source x).1 in
        let later = schedule_all-All sources x' allows.1 first in
        elim (Result-cases (one source x).0) [
          | inr (raised, e) ↦
              let same : (loop (source ∷ sources) x).1.queue ≡ x'.queue = ground (arith, e) in
              rw same first
          | inl (scheduled, e) ↦ elim (Result-cases (loop sources x').0) [
            | inr (raised, k) ↦
                let same : (loop (source ∷ sources) x).1.queue ≡ (loop sources x').1.queue =
                  ground (arith, e, k) in
                rw same later
            | inl (n, k) ↦
                let same : (loop (source ∷ sources) x).1.queue ≡ (loop sources x').1.queue =
                  ground (arith, e, k) in
                rw same later
          ]
        ]

  -- The pair names a source of the list that is due.
  abbrev pub is_for_due : List Source → ℕ × ℕ → Bool
  is_for_due sources (source_id, run_id) =
      any (λ source. is_due T parse_int now source && source.id == source_id) sources

  Allows-more :
      (source : Source) (sources rest : List Source)
      → All (Allows (λ p. is_for_due sources p ≡ true)) rest
      → All (Allows (λ p. is_for_due (source ∷ sources) p ≡ true)) rest
  Allows-more source sources [] h = tt
  Allows-more source sources (next ∷ rest) h =
      ((λ due run. ground (arith, h.0 due run)), Allows-more source sources rest h.1)

  Allows-All : (sources : List Source) → All (Allows (λ p. is_for_due sources p ≡ true)) sources
  Allows-All [] = tt
  Allows-All (source ∷ sources) =
      ((λ due run. ground (arith, due)), Allows-more source sources sources (Allows-All sources))

  -- Whatever fails on the way, the scheduler hands over only runs of enabled sources that are due, each of
  -- which is saved as a running run of its source by then, and if it returns, its number is how many it
  -- handed over. Nothing may be pending before.
  pub schedule_due_sources-due :
      (x : Dispatch)
      → x.queue ≡ []
      → x.world.session.db ≡ x.world.session.saved
      → let (r, x') = schedule_due_sources T O parse_int kinds now x in
        All
          (λ p.
            is_for_due (filter_by (λ source. source.enabled) x.world.session.db.sources) p ≡ true)
          x'.queue
        × All (λ p. is_stored x'.world.session.saved p ≡ true) x'.queue
        × ((r ≡ ok (length x'.queue)) ⊎ (e : Exception) × (r ≡ raise e))
  unfolding schedule_due_sources
  schedule_due_sources-due x fresh clean =
      let sources = filter_by (λ source. source.enabled) x.world.session.db.sources in
      let Q : ℕ × ℕ → Type 0 = λ p. is_for_due sources p ≡ true in
      (
        schedule_all-All Q sources x (Allows-All sources) (rw fresh tt),
        (schedule_all-IsQueueSaved T O parse_int kinds now sources x (clean, rw fresh tt)).1,
        elim (Result-cases (loop sources x).0) [
          | inl (n, e) ↦ inl (ground (arith, e, fresh, schedule_all-count sources x n e))
          | inr (raised, e) ↦ inr (raised, e)
        ],
      )
