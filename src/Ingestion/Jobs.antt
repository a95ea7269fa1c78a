-- ===== src/Ingestion/Jobs.antt =====
-- domain/jobs/normalizer.py, domain/jobs/models.py, domain/jobs/feedback.py,
-- domain/matching/models.py and repositories/jobs.py (app). Of a job, the columns that some code writes
-- or reads, with those that the database fills; a raw payload is its text. The table of runs stands beside the jobs,
-- since one session holds both.
use job_finder_agent.Common.{
  ℕ, Bool, true, false, ◌&&◌, not, Option, none, some, List, [], ◌∷◌, any, find, update_where, add,
  String, str_eq, ◌==◌, if◌then◌else◌, Texts,
}
use job_finder_agent.Matching.Rules.{MatchDecision}
use job_finder_agent.Ingestion.Adapters.Json.{Fields}
use job_finder_agent.Session.{
  Action, ◌>>=◌, ◌>>◌, pure, query, modify, draw, commit_session, flush_session, refresh_session,
}

-- `RawJobRecord`, of an entry whose fields are texts: the normalizer raises on any other one.
pub record RawJobRecord : Type 0 where
  pub external_id : String
  pub title : String
  pub description : String
  pub application_url : String
  pub location : Option String
  pub raw_payload : Option String

pub record JobCandidate : Type 0 where
  pub title : String
  pub company_name : String
  pub company_normalized : String
  pub description : String
  pub description_hash : String
  pub locations : List String
  pub application_url : String
  pub external_id : String
  pub raw_payload : Option String

pub record Job : Type 0 where
  pub id : ℕ
  pub title : String
  pub company_name : String
  pub company_normalized : String
  pub description : String
  pub description_hash : String
  pub locations : List String
  pub application_url : String
  pub work_mode : String
  pub status : String
  pub last_seen_at : ℕ

pub record JobSourceRecord : Type 0 where
  pub id : ℕ
  pub job_id : ℕ
  pub source_id : ℕ
  pub external_id : String
  pub source_url : String
  pub raw_payload : Option String
  pub raw_payload_hash : String

pub record Source : Type 0 where
  pub id : ℕ
  pub user_id : ℕ
  pub kind : String
  pub name : String
  pub config : Fields
  pub schedule : Option String
  pub enabled : Bool
  pub last_success_at : Option ℕ

-- The column `status` of a run.
pub data RunStatus : Type 0 where
  running succeeded partial failed : RunStatus

-- The counters of a run, with the malformed records that its summary names.
pub record IngestionRun : Type 0 where
  pub id : ℕ
  pub source_id : ℕ
  pub status : RunStatus
  pub started_at : ℕ
  pub completed_at : Option ℕ
  pub fetched_count : ℕ
  pub normalized_count : ℕ
  pub created_count : ℕ
  pub updated_count : ℕ
  pub duplicate_count : ℕ
  pub error_count : ℕ
  pub error_summary : List (String × String)

-- `created_at` is the database's clock; the columns of the models that no code fills are left out.
pub record MatchResult : Type 0 where
  pub id : ℕ
  pub job_id : ℕ
  pub preference_profile_id : ℕ
  pub job_description_hash : String
  pub outcome : MatchDecision
  pub created_at : ℕ

pub record JobFeedback : Type 0 where
  pub id : ℕ
  pub user_id : ℕ
  pub job_id : ℕ
  pub label : String
  pub note : Option String

pub record Catalog : Type 0 where
  pub sources : List Source
  pub runs : List IngestionRun
  pub jobs : List Job
  pub records : List JobSourceRecord
  pub matches : List MatchResult
  pub feedback : List JobFeedback

-- From outside: random identifiers, the clock, the hash, and the regular expression of
-- `normalize_company`, which puts a space for what is no letter or digit.
pub record Outside : Type 0 where
  pub uuid4 : ℕ → ℕ
  pub now : ℕ → ℕ
  pub sha256 : String → String
  pub alphanumeric : String → String
  -- `str(raw_payload)`
  pub payload_text : Option String → String

abbrev located : Option String → List String
located none = []
located (some place) = if str_eq place "" then [] else place ∷ []

module _ (T : Texts) (O : Outside) where
  unfoldable pub normalize_company : String → String
  normalize_company value = T.strip (O.alphanumeric (T.casefold value))

  unfoldable pub normalize_record : RawJobRecord → String → JobCandidate
  unfolding normalize_company
  normalize_record r company_name = record {
    title = T.join " " (T.split_spaces r.title);
    company_name = T.strip company_name;
    company_normalized = normalize_company company_name;
    description = r.description;
    description_hash = O.sha256 (T.strip r.description);
    locations = located r.location;
    application_url = r.application_url;
    external_id = r.external_id;
    raw_payload = r.raw_payload;
  }

-- A record of this source and external identifier that belongs to the job.
abbrev pub is_record_of : ℕ → String → Job → JobSourceRecord → Bool
is_record_of source_id external_id job r =
    (r.source_id == source_id) && str_eq r.external_id external_id && (r.job_id == job.id)

unfoldable pub find_existing : ℕ → JobCandidate → Catalog → Option Job
find_existing source_id c d =
    elim (find (λ job. any (is_record_of source_id c.external_id job) d.records) d.jobs) [
      | some job ↦ some job
      | none ↦
          find
            (λ job.
              str_eq job.application_url c.application_url
              && str_eq job.company_normalized c.company_normalized)
            d.jobs
    ]

abbrev pub job_of : ℕ → ℕ → JobCandidate → Job
job_of id now c = record {
  id = id;
  title = c.title;
  company_name = c.company_name;
  company_normalized = c.company_normalized;
  description = c.description;
  description_hash = c.description_hash;
  locations = c.locations;
  application_url = c.application_url;
  work_mode = "unknown";
  status = "active";
  last_seen_at = now;
}

abbrev pub renewed : JobCandidate → Job → Job
renewed c job = record job {
  title = c.title;
  description = c.description;
  description_hash = c.description_hash;
  locations = c.locations;
}

module _ (O : Outside) where
  -- The first half of `upsert`: the job, whether it was created, and whether it was changed.
  unfoldable pub place_job : ℕ → JobCandidate → Action Catalog (Job × Bool × Bool)
  place_job source_id c = do
    existing ← query (find_existing source_id c)
    elim existing [
      | none ↦ do
        (id, now) ← draw (λ t. (O.uuid4 t, O.now t))
        modify (λ d. record d { jobs = add (job_of id now c) d.jobs })
        flush_session
        pure (job_of id now c, true, false)
      | some job ↦
          if not (str_eq job.description_hash c.description_hash)
          then (do
            modify (λ d. record d { jobs = update_where (λ j. j.id == job.id) (renewed c) d.jobs })
            pure (renewed c job, false, true))
          else pure (job, false, false)
    ]

  -- `JobRepository.upsert`
  unfoldable pub upsert : ℕ → JobCandidate → Action Catalog (Job × Bool × Bool)
  unfolding place_job find_existing
  upsert source_id c = do
    (job, created, changed) ← place_job source_id c
    id ← draw O.uuid4
    modify (λ d. record d {
      records =
          add
            (record {
              id = id;
              job_id = job.id;
              source_id = source_id;
              external_id = c.external_id;
              source_url = c.application_url;
              raw_payload = c.raw_payload;
              raw_payload_hash = O.sha256 (O.payload_text c.raw_payload);
            })
            d.records;
    })
    commit_session
    refresh_session
    pure (job, created, changed)
