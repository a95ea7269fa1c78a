-- ===== src/Ingestion/Counts.antt =====
-- The counters of a run, and the runs of a source.
use job_finder_agent.Common.{
  ℕ, suc, ◌+◌, ◌≤◌, ◌≡◌, refl, ◌∙◌, ap, Bool, true, false, ◌&&◌, Option, none, some, List, [], ◌∷◌,
  any, str_eq, filter_by, length, find, find-satisfies, find-update_where, add, String, arith,
  if◌then◌else◌, ◌==◌, Texts, Bool-cases, Option-cases, inl, inr,
}
use job_finder_agent.Session.{
  Session, ok, Result-cases, commit_session, flush_session, refresh_session, next_fault,
}
use job_finder_agent.Ingestion.Service.{
  create_run, finish_run, ingest_all, malformed_summary, record_success, start_run,
}
use job_finder_agent.Ingestion.Jobs.{
  Catalog, IngestionRun, running, succeeded, partial, RawJobRecord, JobCandidate, Job, Outside,
  normalize_record, upsert, place_job, find_existing,
}
use job_finder_agent.Ingestion.Runs.{
  Collected, Finish, finished, is_running, runs_now, newest, active_run, World, source_for,
}

module _ (T : Texts) (O : Outside) where
  -- A job is not both created and changed, and the runs stay as they are.
  upsert-flags :
      (source_id : ℕ) (c : JobCandidate) (s : Session Catalog) (job : Job) (created changed : Bool)
      → (upsert O source_id c s).0 ≡ ok (job, created, changed)
      → (created && changed ≡ false) × ((upsert O source_id c s).1.db.runs ≡ s.db.runs)
  unfolding upsert place_job commit_session flush_session refresh_session
  upsert-flags source_id c s job created changed h =
      elim (Option-cases (find_existing source_id c s.db)) [
        | inl e ↦ ground (arith, e)
        | inr (found, e) ↦ ground (arith, e)
      ]

  ingest_all-counts :
      (source_id : ℕ) (company : String) (rs : List RawJobRecord) (s : Session Catalog) (c u d : ℕ)
      → (ingest_all T O source_id company rs s).0 ≡ ok (c, u, d)
      → (c + u + d ≡ length rs) × ((ingest_all T O source_id company rs s).1.db.runs ≡ s.db.runs)
  unfolding ingest_all
  ingest_all-counts source_id company [] s c u d h = ground arith
  ingest_all-counts source_id company (r ∷ rs) s c u d h =
      let first = upsert O source_id (normalize_record T O r company) s in
      elim (Result-cases first.0) [
        | inr (x, e) ↦ ground (arith, e)
        | inl ((job, created, changed), e) ↦
            let rest = ingest_all T O source_id company rs first.1 in
            let (flags, kept) =
              upsert-flags source_id (normalize_record T O r company) s job created changed e in
            elim (Result-cases rest.0) [
              | inr (x, e') ↦ ground (arith, e, e')
              | inl ((c', u', d'), e') ↦
                  let (sum, kept') = ingest_all-counts source_id company rs first.1 c' u' d' e' in
                  ground (arith, e, e', flags, kept, sum, kept')
            ]
      ]

  finish_run-row :
      (run_id : ℕ) (f : Finish) (s : Session Catalog) (r : IngestionRun)
      → find (λ x. x.id == run_id) s.db.runs ≡ some r
      → (finish_run T O run_id f s).0 ≡ ok tt
      → let s' = (finish_run T O run_id f s).1 in
        (find (λ x. x.id == run_id) s'.db.runs ≡ some (finished f (O.now s.ticks) r))
        × (s'.saved ≡ s'.db)
  unfolding finish_run commit_session flush_session refresh_session
  finish_run-row run_id f s r found h =
      let at =
        find-update_where (λ x. x.id == run_id) (λ x. x.id == run_id) (finished f (O.now s.ticks))
          s.db.runs (λ x. refl) in
      let own = find-satisfies (λ x. x.id == run_id) s.db.runs {x = r} found in
      ground (arith, at, found, own)

  -- What is recorded of a run that was stored: it runs no more, its counters of created, updated and
  -- unchanged jobs add up to the records that were fetched and normalized, the errors are the
  -- malformed records, and all of it is saved. This is for a run that is known, with a source and a
  -- company, where the storing returned.
  pub record_success-counts :
      (run_id source_id : ℕ) (company : String) (c : Collected) (s : Session Catalog)
      (r : IngestionRun)
      → find (λ x. x.id == run_id) s.db.runs ≡ some r
      → (record_success T O run_id (some source_id) (some company) c s).0 ≡ ok tt
      → let s' = (record_success T O run_id (some source_id) (some company) c s).1 in
        (row : IngestionRun) × (find (λ x. x.id == run_id) s'.db.runs ≡ some row)
        × (is_running row.status ≡ false)
        × (row.created_count + row.updated_count + row.duplicate_count ≡ row.fetched_count)
        × (row.fetched_count ≡ length c.fetched)
        × (row.normalized_count ≡ length c.fetched)
        × (row.error_count ≡ c.malformed)
        × (s'.saved ≡ s'.db)
  unfolding record_success
  record_success-counts run_id source_id company c s r found h =
      let all = ingest_all T O source_id company c.fetched s in
      elim (Result-cases all.0) [
        | inr (x, e) ↦ ground (arith, found, e)
        | inl ((created, updated, duplicate), e) ↦
            let (sum, kept) =
              ingest_all-counts source_id company c.fetched s created updated duplicate e in
            let f : Finish = record {
              status = if c.malformed == 0 then succeeded else partial;
              fetched_count = length c.fetched;
              error_count = c.malformed;
              error_summary = malformed_summary T O c.malformed;
              created_count = created;
              updated_count = updated;
              duplicate_count = duplicate;
            } in
            let same : record_success T O run_id (some source_id) (some company) c s
                ≡ finish_run T O run_id f all.1 =
              ground (arith, found, e) in
            let (row, saved) =
              finish_run-row run_id f all.1 r (ap (find (λ x. x.id == run_id)) kept ∙ found)
                (rw same at h) in
            rw same
              (finished f (O.now all.1.ticks) r, row, ground arith, sum, refl, refl, refl, saved)
      ]

newest-none : (rs : List IngestionRun) → newest rs ≡ none → rs ≡ []
unfolding newest
newest-none [] h = refl
newest-none (r ∷ rs) h = ground arith

-- At most one run of the source is running.
abbrev pub OneRunning : ℕ → Catalog → Type 0
OneRunning source_id d = length (filter_by (runs_now source_id) d.runs) ≤ 1

module _ (T : Texts) (O : Outside) where
  runs_now-added :
      (source_id : ℕ) (rs : List IngestionRun) (r : IngestionRun)
      → filter_by (runs_now source_id) rs ≡ []
      → length (filter_by (runs_now source_id) (add r rs)) ≤ 1
  runs_now-added source_id [] r h = ground arith
  runs_now-added source_id (x ∷ rs) r h = ground (arith, runs_now-added source_id rs r)

  create_run-OneRunning :
      (source_id : ℕ) (s : Session Catalog)
      → filter_by (runs_now source_id) s.db.runs ≡ []
      → OneRunning source_id s.saved
      → let s' = (create_run T O source_id s).1 in
        OneRunning source_id s'.db × OneRunning source_id s'.saved
  unfolding create_run commit_session flush_session refresh_session
  create_run-OneRunning source_id s idle one_saved =
      let id = O.uuid4 s.ticks in
      let new : IngestionRun = record {
        id = O.uuid4 s.ticks;
        source_id = source_id;
        status = running;
        started_at = O.now (suc s.ticks);
        completed_at = none;
        fetched_count = 0;
        normalized_count = 0;
        created_count = 0;
        updated_count = 0;
        duplicate_count = 0;
        error_count = 0;
        error_summary = [];
      } in
      let added = runs_now-added source_id s.db.runs new idle in
      (ground (arith, added, one_saved), ground (arith, added, one_saved))

  -- Starting a run keeps it the only one of its source: where no two runs of a source are running,
  -- neither are two after it, in what is seen and in what is saved, on every outcome. A run that is
  -- returned as running already is the source's running one that started last, and then nothing changes.
  pub start_run-OneRunning :
      (has_redis : Bool) (kinds : List String) (source_id : ℕ) (user_id : Option ℕ) (w : World)
      → OneRunning source_id w.session.db
      → OneRunning source_id w.session.saved
      → let (r, w') = start_run T O has_redis kinds source_id user_id w in
        OneRunning source_id w'.session.db
        × OneRunning source_id w'.session.saved
        × ((run : IngestionRun)
            → r ≡ ok (run, true)
            → (w' ≡ w) × (newest (filter_by (runs_now source_id) w.session.db.runs) ≡ some run))
  unfolding start_run active_run commit_session next_fault
  start_run-OneRunning has_redis kinds source_id user_id w one one_saved =
      elim (Option-cases (source_for source_id user_id w.session.db)) [
        | inl unknown ↦ rw (unknown, start_run) (one, one_saved, λ run h. cc)
        | inr (source, known) ↦ elim (Bool-cases (any (λ k. str_eq k source.kind) kinds)) [
          | inr unsupported ↦ rw (known, unsupported, start_run) (one, one_saved, λ run h. cc)
          | inl supported ↦ elim (Option-cases (active_run source_id w.session.db)) [
            | inr (run, active) ↦
                rw (known, supported, active, start_run) (one, one_saved, λ run' h. (refl, cc h))
            | inl idle ↦ elim (Bool-cases (has_redis && any (λ l. l == source_id) w.locks)) [
              | inl locked ↦
                  rw (known, supported, idle, locked, start_run) (one, one_saved, λ run h. cc)
              | inr free ↦
                  let (seen, saved) =
                    create_run-OneRunning source_id w.session
                      (newest-none (filter_by (runs_now source_id) w.session.db.runs) idle)
                      one_saved in
                  elim (Result-cases (create_run T O source_id w.session).0) [
                    | inl (run, e) ↦
                        rw (known, supported, idle, free, e, start_run) (seen, saved, λ run h. cc)
                    | inr (x, e) ↦
                        rw (known, supported, idle, free, e, start_run) (seen, saved, λ run h. cc)
                  ]
            ]
          ]
        ]
      ]
