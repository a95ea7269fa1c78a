-- ===== src/Ingestion/Again.antt =====
-- A posting that is stored again.
use job_finder_agent.Common.{
  ℕ, suc, ◌≡◌, refl, ◌∙◌, inl, inr, Bool, true, false, ◌&&◌, ◌||◌, none, some, List, [], ◌∷◌, arith,
  All, any, any-append, add, find, find-All, find-add, find-update_where, update_where, str_eq,
  eq_refl, ◌==◌, Option-cases, Bool-cases,
}
use job_finder_agent.Session.{
  Session, ok, commit_session, flush_session, refresh_session, next_fault, later_faults,
}
use job_finder_agent.Ingestion.Jobs.{
  Job, JobCandidate, JobSourceRecord, Catalog, Outside, is_record_of, find_existing, job_of,
  renewed, place_job, upsert,
}

-- No two rows have one primary key.
abbrev IsKeyed : List Job → Type 0
IsKeyed jobs = All (λ j. find (λ i. i.id == j.id) jobs ≡ some j) jobs

module _ (p q : Job → Bool) (id : ℕ) (widens : (j : Job) → q j ≡ (p j || j.id == id)) where
  -- A row that is found first is still found first once rows with its own key are looked for as well.
  find-widened :
      (jobs : List Job) (job : Job)
      → find p jobs ≡ some job
      → find (λ i. i.id == id) jobs ≡ some job
      → find q jobs ≡ some job
  unfolding find
  find-widened [] job found keyed = cc
  find-widened (j ∷ jobs) job found keyed = elim (Bool-cases (p j)) [
    | inl here ↦ ground (arith, here, widens j)
    | inr other ↦ elim (Bool-cases (j.id == id)) [
      | inl same ↦ ground (arith, other, same, widens j)
      | inr distinct ↦ ground (
        arith,
        other,
        distinct,
        widens j,
        find-widened jobs job (ground (arith, other)) (ground (arith, distinct)),
      )
    ]
  ]

  find-only : (jobs : List Job) → find p jobs ≡ none → find q jobs ≡ find (λ i. i.id == id) jobs
  unfolding find
  find-only [] gone = refl
  find-only (j ∷ jobs) gone = elim (Bool-cases (p j)) [
    | inl here ↦ ground (arith, here)
    | inr other ↦ ground (arith, other, widens j, find-only jobs (ground (arith, other)))
  ]

module _ (O : Outside) (source_id : ℕ) (c : JobCandidate) where
  abbrev recorded : List JobSourceRecord → Job → Bool
  recorded records job = any (is_record_of source_id c.external_id job) records

  abbrev record_of : ℕ → ℕ → JobSourceRecord
  record_of id job_id = record {
    id = id;
    job_id = job_id;
    source_id = source_id;
    external_id = c.external_id;
    source_url = c.application_url;
    raw_payload = c.raw_payload;
    raw_payload_hash = O.sha256 (O.payload_text c.raw_payload);
  }

  recorded-add :
      (records : List JobSourceRecord) (id job_id : ℕ) (j : Job)
      → recorded (add (record_of id job_id) records) j ≡ (recorded records j || j.id == job_id)
  recorded-add records id job_id j = ground (
    arith,
    any-append (is_record_of source_id c.external_id j) records (record_of id job_id ∷ []),
    eq_refl c.external_id,
  )

  -- A job that is found is found by its new record.
  found-again :
      (d : Catalog) (id : ℕ) (job : Job)
      → find_existing source_id c d ≡ some job
      → find (λ i. i.id == job.id) d.jobs ≡ some job
      → find (recorded (add (record_of id job.id) d.records)) d.jobs ≡ some job
  unfolding find_existing
  found-again d id job found keyed =
      let widens = recorded-add d.records id job.id in
      elim (Option-cases (find (recorded d.records) d.jobs)) [
        | inl gone ↦ find-only (recorded d.records) _ job.id widens d.jobs gone ∙ keyed
        | inr (first, there) ↦
            find-widened (recorded d.records) _ job.id widens d.jobs job
              (ground (arith, there, found)) keyed
      ]

  -- The second time, for a job that is found with the hash of the candidate.
  upsert_found :
      (s : Session Catalog) (job : Job)
      → s.faults ≡ []
      → find (recorded s.db.records) s.db.jobs ≡ some job
      → str_eq job.description_hash c.description_hash ≡ true
      → ((upsert O source_id c s).0 ≡ ok (job, false, false))
        × ((upsert O source_id c s).1.db.jobs ≡ s.db.jobs)
  unfolding upsert place_job find_existing commit_session refresh_session flush_session next_fault
      later_faults
  upsert_found s job works found same =
      (ground (arith, works, found, same), ground (arith, works, found, same))

  module _ (s : Session Catalog) (works : s.faults ≡ []) where
    abbrev after : Session Catalog
    after = (upsert O source_id c s).1

    after_unchanged :
        (job : Job)
        → find_existing source_id c s.db ≡ some job
        → str_eq job.description_hash c.description_hash ≡ true
        → (after.faults ≡ [])
          × (after.db.jobs ≡ s.db.jobs)
          × (after.db.records ≡ add (record_of (O.uuid4 s.ticks) job.id) s.db.records)
    unfolding upsert place_job commit_session refresh_session flush_session next_fault later_faults
    after_unchanged job found same = ground (arith, works, found, same)

    after_changed :
        (job : Job)
        → find_existing source_id c s.db ≡ some job
        → str_eq job.description_hash c.description_hash ≡ false
        → (after.faults ≡ [])
          × (after.db.jobs ≡ update_where (λ j. j.id == job.id) (renewed c) s.db.jobs)
          × (after.db.records ≡ add (record_of (O.uuid4 s.ticks) job.id) s.db.records)
    unfolding upsert place_job commit_session refresh_session flush_session next_fault later_faults
    after_changed job found other = ground (arith, works, found, other)

    abbrev new : Job
    new = job_of (O.uuid4 s.ticks) (O.now s.ticks) c

    after_created :
        find_existing source_id c s.db ≡ none
        → (after.faults ≡ [])
          × (after.db.jobs ≡ add new s.db.jobs)
          × (after.db.records ≡ add (record_of (O.uuid4 (suc s.ticks)) new.id) s.db.records)
    unfolding upsert place_job commit_session refresh_session flush_session next_fault later_faults
    after_created gone = ground (arith, works, gone)

    -- The second search of `find_existing`.
    abbrev same_place : Job → Bool
    same_place job =
        str_eq job.application_url c.application_url
        && str_eq job.company_normalized c.company_normalized

    keyed_existing :
        (job : Job)
        → IsKeyed s.db.jobs
        → find_existing source_id c s.db ≡ some job
        → find (λ i. i.id == job.id) s.db.jobs ≡ some job
    unfolding find_existing
    keyed_existing job keyed found =
        let here : (p : Job → Bool)
            → find p s.db.jobs ≡ some job
            → find (λ i. i.id == job.id) s.db.jobs ≡ some job =
          λ p at.
            find-All (λ j. find (λ i. i.id == j.id) s.db.jobs ≡ some j) p s.db.jobs job keyed at in
        elim (Option-cases (find (recorded s.db.records) s.db.jobs)) [
          | inl gone ↦ here same_place (ground (arith, gone, found))
          | inr (first, there) ↦ here (recorded s.db.records) (ground (arith, there, found))
        ]

    missing : find_existing source_id c s.db ≡ none → find (recorded s.db.records) s.db.jobs ≡ none
    unfolding find_existing
    missing gone = elim (Option-cases (find (recorded s.db.records) s.db.jobs)) [
      | inl e ↦ e
      | inr (job, e) ↦ ground (arith, e, gone)
    ]

    -- A posting that is stored again is a duplicate: while the database works, a second `upsert` of the
    -- same candidate returns a job as neither created nor changed, and leaves the jobs as the first one
    -- left them. No two jobs may have one identifier, the one that the first `upsert` may draw included.
    pub upsert-again :
        IsKeyed s.db.jobs
        → find (λ j. j.id == O.uuid4 s.ticks) s.db.jobs ≡ none
        → (job : Job) × ((upsert O source_id c after).0 ≡ ok (job, false, false))
          × ((upsert O source_id c after).1.db.jobs ≡ after.db.jobs)
    upsert-again keyed fresh = elim (Option-cases (find_existing source_id c s.db)) [
      | inl gone ↦
          let (calm, jobs, records) = after_created gone in
          let q = recorded (add (record_of (O.uuid4 (suc s.ticks)) new.id) s.db.records) in
          let widens = recorded-add s.db.records (O.uuid4 (suc s.ticks)) new.id in
          let none_yet : find q s.db.jobs ≡ none =
            find-only (recorded s.db.records) q new.id widens s.db.jobs (missing gone) ∙ fresh in
          let found : find q (add new s.db.jobs) ≡ some new =
            ground (arith, find-add q s.db.jobs new, none_yet, widens new) in
          let (again, same) =
            upsert_found after new calm (rw (records, jobs) found) (eq_refl c.description_hash) in
          (new, again, same)
      | inr (job, there) ↦
          let own = keyed_existing job keyed there in
          let found = found-again s.db (O.uuid4 s.ticks) job there own in
          elim (Bool-cases (str_eq job.description_hash c.description_hash)) [
            | inl same ↦
                let (calm, jobs, records) = after_unchanged job there same in
                let (again, kept) = upsert_found after job calm (rw (records, jobs) found) same in
                (job, again, kept)
            | inr other ↦
                let (calm, jobs, records) = after_changed job there other in
                let q = recorded (add (record_of (O.uuid4 s.ticks) job.id) s.db.records) in
                let row =
                  find-update_where q (λ j. j.id == job.id) (renewed c) s.db.jobs (λ x. refl) in
                let renewed_found : find q
                      (update_where (λ j. j.id == job.id) (renewed c) s.db.jobs)
                    ≡ some (renewed c job) =
                  ground (arith, row, found) in
                let (again, kept) =
                  upsert_found after (renewed c job) calm (rw (records, jobs) renewed_found)
                    (eq_refl c.description_hash) in
                (renewed c job, again, kept)
          ]
    ]
