-- ===== src/Ingestion/Ends.antt =====
-- How an execution of a run ends: with its lock given back, and with a failure recorded.
use job_finder_agent.Common.{
  ℕ, ◌≡◌, ◌≢◌, refl, Bool, true, false, not, Option, some, List, [], ◌∷◌, any, filter_by, find,
  find-satisfies, find-update_where, length, String, arith, ◌==◌, Texts,
}
use job_finder_agent.Session.{
  Session, raise, other, next_fault, later_faults, commit_session, flush_session, refresh_session,
}
use job_finder_agent.Notifications.Deliveries.{Failure}
use job_finder_agent.Ingestion.Service.{execute_run_locked, finish_run, record_failure}
use job_finder_agent.Ingestion.Jobs.{Catalog, IngestionRun, failed, Outside}
use job_finder_agent.Ingestion.Runs.{Adapter, Collected, World, Finish, finished}

abbrev pub is_locked : ℕ → World → Bool
is_locked source_id w = any (λ l. l == source_id) w.locks

unlocked :
    (id : ℕ) (locks : List ℕ) → any (λ l. l == id) (filter_by (λ l. not (l == id)) locks) ≡ false
unlocked id [] = refl
unlocked id (l ∷ locks) = ground (arith, unlocked id locks)

others_locked :
    (id other_id : ℕ) (locks : List ℕ)
    → other_id ≢ id
    → any (λ l. l == other_id) (filter_by (λ l. not (l == id)) locks)
      ≡ any (λ l. l == other_id) locks
others_locked id other_id [] apart = refl
others_locked id other_id (l ∷ locks) apart = ground (arith, others_locked id other_id locks apart)

module _ (T : Texts) (O : Outside) where
  -- However an execution ends, by an adapter's error or the database's included, the source's lock is
  -- given back, and the locks of the other sources are as they were.
  pub execute_run_locked-is_locked :
      (adapter : Adapter) (run_id source_id : ℕ) (company : Option String) (w : World)
      → let w' = (execute_run_locked T O true adapter run_id (some source_id) company w).1 in
        (is_locked source_id w' ≡ false)
        × ((other_id : ℕ) → other_id ≢ source_id → is_locked other_id w' ≡ is_locked other_id w)
  unfolding execute_run_locked
  execute_run_locked-is_locked adapter run_id source_id company w =
      (unlocked source_id w.locks, λ other_id apart. others_locked source_id other_id w.locks apart)

  -- An AdapterError that ends the fetch of a known run is raised again once the run is saved as failed,
  -- with one error and its message, if the calls of the database succeed.
  pub record_failure-failed :
      (run_id : ℕ) (c : Collected) (e : Failure) (s : Session Catalog) (r : IngestionRun)
      → find (λ x. x.id == run_id) s.db.runs ≡ some r
      → s.faults ≡ []
      → let (result, s') = record_failure T O run_id c e s in
        (result ≡ raise (other e.message))
        × (row : IngestionRun) × (find (λ x. x.id == run_id) s'.saved.runs ≡ some row)
        × (row.status ≡ failed)
        × (row.error_count ≡ 1)
        × (row.error_summary ≡ ("message", e.message) ∷ [])
        × (row.fetched_count ≡ length c.fetched)
  unfolding record_failure finish_run commit_session refresh_session flush_session next_fault
      later_faults
  record_failure-failed run_id c e s r found quiet =
      let f : Finish = record {
        status = failed;
        fetched_count = length c.fetched;
        error_count = 1;
        error_summary = ("message", e.message) ∷ [];
        created_count = 0;
        updated_count = 0;
        duplicate_count = 0;
      } in
      let at =
        find-update_where (λ x. x.id == run_id) (λ x. x.id == run_id) (finished f (O.now s.ticks))
          s.db.runs (λ x. refl) in
      let own = find-satisfies (λ x. x.id == run_id) s.db.runs {x = r} found in
      (
        ground (arith, found, quiet),
        finished f (O.now s.ticks) r,
        ground (arith, found, quiet, at, own),
        refl,
        refl,
        refl,
        refl,
      )
