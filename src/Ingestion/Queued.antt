-- ===== src/Ingestion/Queued.antt =====
-- The runs that the scheduler hands over are saved when it does.
use job_finder_agent.Common.{
  ℕ, suc, ◌≡◌, ◌≢◌, ◌⊎◌, Bool, true, false, ◌&&◌, Option, none, some, List, [], ◌∷◌, add, any,
  any-append, All, All-append, arith, str_eq, String, ◌==◌, Texts, Bool-cases, Option-cases, inl,
  inr,
}
use job_finder_agent.Session.{
  Session, Result, Result-cases, ok, commit_session, flush_session, refresh_session, next_fault,
}
use job_finder_agent.Ingestion.Jobs.{Catalog, Source, Outside, IngestionRun, running}
use job_finder_agent.Ingestion.Runs.{World, is_running, source_for, active_run}
use job_finder_agent.Ingestion.Service.{create_run, start_run}
use job_finder_agent.Ingestion.Schedule.{is_due}
use job_finder_agent.Ingestion.Scheduler.{Dispatch, schedule_source, schedule_all}

-- The run is there, of this source, and running.
abbrev pub is_stored : Catalog → ℕ × ℕ → Bool
is_stored d (source_id, run_id) =
    any (λ r. (r.id == run_id) && (r.source_id == source_id) && is_running r.status) d.runs

-- Nothing is pending, and the runs that were saved are saved.
abbrev pub Keeps : Session Catalog → Session Catalog → Type 0
Keeps s s' =
    (s'.db ≡ s'.saved) × ((p : ℕ × ℕ) → is_stored s.saved p ≡ true → is_stored s'.saved p ≡ true)

module _ (T : Texts) (O : Outside) where
  abbrev new_run : ℕ → Session Catalog → IngestionRun
  new_run source_id s = record {
    id = O.uuid4 s.ticks;
    source_id = source_id;
    status = running;
    started_at = O.now (suc s.ticks);
    completed_at = none;
    fetched_count = 0;
    normalized_count = 0;
    created_count = 0;
    updated_count = 0;
    duplicate_count = 0;
    error_count = 0;
    error_summary = [];
  }

  abbrev with_run : ℕ → Session Catalog → Catalog
  with_run source_id s = record s.db { runs = add (new_run source_id s) s.db.runs }

  is_stored-with_run :
      (source_id : ℕ) (s : Session Catalog) (p : ℕ × ℕ)
      → is_stored s.db p ≡ true
      → is_stored (with_run source_id s) p ≡ true
  is_stored-with_run source_id s (i, j) h = ground (
    arith,
    h,
    any-append (λ r. (r.id == j) && (r.source_id == i) && is_running r.status) s.db.runs
        (new_run source_id s ∷ []),
  )

  is_stored-new_run :
      (source_id : ℕ) (s : Session Catalog)
      → is_stored (with_run source_id s) (source_id, O.uuid4 s.ticks) ≡ true
  is_stored-new_run source_id s = ground (
    arith,
    any-append (λ r. (r.id == O.uuid4 s.ticks) && (r.source_id == source_id) && is_running r.status)
        s.db.runs (new_run source_id s ∷ []),
  )

  create_run-Keeps :
      (source_id : ℕ) (s : Session Catalog)
      → s.db ≡ s.saved
      → let (r, s') = create_run T O source_id s in
        Keeps s s'
        × ((run : IngestionRun) → r ≡ ok run → is_stored s'.saved (source_id, run.id) ≡ true)
  unfolding create_run commit_session flush_session refresh_session
  create_run-Keeps source_id s clean = elim (Option-cases (next_fault s.faults)) [
    | inr (x, e) ↦ ((ground (arith, e), λ p h. ground (arith, e, h)), λ run h. ground (arith, e))
    | inl e ↦ (
      (ground (arith, e), λ p h. ground (arith, e, is_stored-with_run source_id s p (rw clean h))),
      λ run h. ground (arith, e, is_stored-new_run source_id s),
    )
  ]

  module _ (kinds : List String) (source_id : ℕ) (user_id : Option ℕ) (w : World) where
    abbrev start : Result (IngestionRun × Bool) × World
    start = start_run T O true kinds source_id user_id w

    abbrev AddsRun : Result (IngestionRun × Bool) × World → Type 0
    AddsRun (r, w') =
        Keeps w.session w'.session
        × ((run : IngestionRun)
            → r ≡ ok (run, false)
            → is_stored w'.session.saved (source_id, run.id) ≡ true)

    AddsRun-same :
        (r : Result (IngestionRun × Bool))
        → w.session.db ≡ w.session.saved
        → ((run : IngestionRun) → r ≢ ok (run, false))
        → (locks : List ℕ) → AddsRun (r, record { session = w.session; locks = locks })
    AddsRun-same r clean never locks = ((clean, λ p h. h), λ run h. absurd (never run h))

    start_run-AddsRun : w.session.db ≡ w.session.saved → AddsRun start
    unfolding start_run commit_session next_fault
    start_run-AddsRun clean = elim (Option-cases (source_for source_id user_id w.session.db)) [
      | inl unknown ↦ rw (unknown, start_run) (AddsRun-same _ clean (λ run h. cc) w.locks)
      | inr (source, known) ↦ elim (Bool-cases (any (λ k. str_eq k source.kind) kinds)) [
        | inr unsupported ↦
            rw (known, unsupported, start_run) (AddsRun-same _ clean (λ run h. cc) w.locks)
        | inl supported ↦ elim (Option-cases (active_run source_id w.session.db)) [
          | inr (run, active) ↦
              rw (known, supported, active, start_run) (AddsRun-same _ clean (λ x h. cc) w.locks)
          | inl idle ↦ elim (Bool-cases (any (λ l. l == source_id) w.locks)) [
            | inl locked ↦
                rw (known, supported, idle, locked, start_run)
                  (AddsRun-same _ clean (λ x h. cc) w.locks)
            | inr free ↦
                let (keeps, stored) = create_run-Keeps source_id w.session clean in
                elim (Result-cases (create_run T O source_id w.session).0) [
                  | inl (run, e) ↦
                      rw (known, supported, idle, free, e, start_run)
                        (keeps, λ x h. ground (arith, h, stored run e))
                  | inr (x, e) ↦ rw (known, supported, idle, free, e, start_run) (keeps, λ x h. cc)
                ]
          ]
        ]
      ]
    ]

  module _ (parse_int : String → Option ℕ) (kinds : List String) (now : ℕ) where
    -- Nothing is pending, and every run in the queue is saved.
    abbrev pub IsQueueSaved : Dispatch → Type 0
    IsQueueSaved x =
        (x.world.session.db ≡ x.world.session.saved)
        × All (λ p. is_stored x.world.session.saved p ≡ true) x.queue

    abbrev begun : Source → Dispatch → Result (IngestionRun × Bool) × World
    begun source x = start kinds source.id (some source.user_id) x.world

    -- A step keeps its queue, or adds the run that it started to it.
    schedule_source-begun :
        (source : Source) (x : Dispatch)
        → let x' = (schedule_source T O parse_int kinds now source x).1 in
          (x' ≡ x)
          ⊎ (x' ≡ record x { world = (begun source x).1 })
          ⊎ ((run : IngestionRun) × ((begun source x).0 ≡ ok (run, false))
              × (x'
                  ≡ record { world = (begun source x).1; queue = add (source.id, run.id) x.queue }))
    unfolding schedule_source
    schedule_source-begun source x = elim (Bool-cases (is_due T parse_int now source)) [
      | inr idle ↦ inl (ground (arith, idle))
      | inl due ↦ elim (Result-cases (begun source x).0) [
        | inl ((run, already), e) ↦ elim (Bool-cases already) [
          | inl held ↦ inr (inl (ground (arith, due, e, held)))
          | inr fresh ↦ inr (inr (run, ground (arith, e, fresh), ground (arith, due, e, fresh)))
        ]
        | inr (raised, e) ↦ inr (inl (ground (arith, due, e)))
      ]
    ]

    All-kept :
        (s s' : Session Catalog) (queue : List (ℕ × ℕ))
        → Keeps s s'
        → All (λ p. is_stored s.saved p ≡ true) queue
        → All (λ p. is_stored s'.saved p ≡ true) queue
    All-kept s s' [] keeps h = tt
    All-kept s s' (p ∷ queue) keeps h = (keeps.1 p h.0, All-kept s s' queue keeps h.1)

    schedule_source-IsQueueSaved :
        (source : Source) (x : Dispatch)
        → IsQueueSaved x
        → IsQueueSaved (schedule_source T O parse_int kinds now source x).1
    schedule_source-IsQueueSaved source x (clean, stored) =
        let w' = (begun source x).1 in
        let (keeps, added) =
          start_run-AddsRun kinds source.id (some source.user_id) x.world clean in
        let kept = All-kept x.world.session w'.session x.queue keeps stored in
        elim (schedule_source-begun source x) [
          | inl same ↦ rw same (clean, stored)
          | inr (inl same) ↦ rw same (keeps.0, kept)
          | inr (inr (run, fresh, same)) ↦ rw same (
            keeps.0,
            All-append (λ p. is_stored w'.session.saved p ≡ true) x.queue ((source.id, run.id) ∷ [])
                kept (added run fresh, tt),
          )
        ]

    pub schedule_all-IsQueueSaved :
        (sources : List Source) (x : Dispatch)
        → IsQueueSaved x
        → IsQueueSaved (schedule_all T O parse_int kinds now sources x).1
    unfolding schedule_all
    schedule_all-IsQueueSaved [] x h = h
    schedule_all-IsQueueSaved (source ∷ sources) x h =
        let first = schedule_source-IsQueueSaved source x h in
        let x' = (schedule_source T O parse_int kinds now source x).1 in
        let later = schedule_all-IsQueueSaved sources x' first in
        elim (Result-cases (schedule_source T O parse_int kinds now source x).0) [
          | inr (raised, e) ↦
              let same : (schedule_all T O parse_int kinds now (source ∷ sources) x).1 ≡ x' =
                ground (arith, e) in
              rw same first
          | inl (scheduled, e) ↦
              elim (Result-cases (schedule_all T O parse_int kinds now sources x').0) [
                | inr (raised, k) ↦
                    let same : (schedule_all T O parse_int kinds now (source ∷ sources) x).1
                        ≡ (schedule_all T O parse_int kinds now sources x').1 =
                      ground (arith, e, k) in
                    rw same later
                | inl (n, k) ↦
                    let same : (schedule_all T O parse_int kinds now (source ∷ sources) x).1
                        ≡ (schedule_all T O parse_int kinds now sources x').1 =
                      ground (arith, e, k) in
                    rw same later
              ]
        ]
