-- ===== src/Jobs/Match.antt =====
-- domain/matching/service.py and repositories/matching.py (app): a job is matched against the active
-- preferences of a user. One session holds the jobs and the preferences.
use job_finder_agent.Common.{ℕ, Option, none, some, find, ◌==◌, add, Texts}
use job_finder_agent.Errors.Exceptions.{job_not_found, active_preference_not_found}
use job_finder_agent.Session.{
  Action, raise, other, ◌>>=◌, ◌>>◌, pure, fail, query, modify, draw, commit_session,
  refresh_session,
}
use job_finder_agent.Preferences.Schemas.{PreferenceInput, validate}
use job_finder_agent.Preferences.Store.{Profile, Profiles, get_active}
use job_finder_agent.Matching.Rules.{Posting, evaluate_rules}
use job_finder_agent.Ingestion.Jobs.{Job, MatchResult, Catalog, Outside}

pub record Desk : Type 0 where
  pub catalog : Catalog
  pub preferences : Profiles

-- An action that reads one part and writes nothing.
abbrev reading : {E A : Type 0} → (Desk → E) → Action E A → Action Desk A
reading part m s =
    let (r, s') =
      m (record { db = part s.db; saved = part s.saved; faults = s.faults; ticks = s.ticks }) in
    (r, record s { faults = s'.faults; ticks = s'.ticks })

-- `JobRepository.get`
unfoldable pub job_by_id : ℕ → Action Desk (Option Job)
job_by_id job_id = query (λ d. find (λ job. job.id == job_id) d.catalog.jobs)

-- `MatchingRepository.create`
unfoldable pub create_match : MatchResult → Action Desk MatchResult
create_match m = do
  modify (λ d. record d { catalog = record d.catalog { matches = add m d.catalog.matches } })
  commit_session
  refresh_session
  pure m

-- What the rules read of a job.
abbrev posting_of : Job → Posting
posting_of job = record {
  title = job.title;
  description = job.description;
  company_name = job.company_name;
  locations = job.locations;
}

module _ (T : Texts) (scaled : ℕ → ℕ → ℕ) (O : Outside) where
  abbrev pub match_of : ℕ → ℕ → Job → Profile → PreferenceInput → MatchResult
  match_of id now job profile preferences = record {
    id = id;
    job_id = job.id;
    preference_profile_id = profile.id;
    job_description_hash = job.description_hash;
    outcome = evaluate_rules T scaled (posting_of job) preferences;
    created_at = now;
  }

  -- `MatchingService.evaluate`
  unfoldable pub evaluate : Job → Profile → Action Desk MatchResult
  unfolding create_match
  evaluate job profile = elim (validate T profile.config) [
    | none ↦ λ s. (raise (other "ValidationError"), s)
    | some preferences ↦ (do
      (id, now) ← draw (λ t. (O.uuid4 t, O.now t))
      create_match (match_of id now job profile preferences))
  ]

  unfoldable pub match_job : ℕ → ℕ → Action Desk MatchResult
  unfolding job_by_id evaluate
  match_job job_id user_id = do
    found ← job_by_id job_id
    elim found [
      | none ↦ fail job_not_found
      | some job ↦ (do
        active ← reading (λ d. d.preferences) (get_active user_id)
        elim active [
          | none ↦ fail active_preference_not_found
          | some profile ↦ evaluate job profile
        ])
    ]
