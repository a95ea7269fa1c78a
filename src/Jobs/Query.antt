-- ===== src/Jobs/Query.antt =====
-- repositories/job_query.py and domain/jobs/query_service.py (app), with the lookup of the latest
-- match in repositories/matching.py.
use job_finder_agent.Common.{
  ℕ, ◌-◌, ◌*◌, Bool, true, ◌&&◌, ◌||◌, Option, none, some, List, [], ◌∷◌, ◌++◌, String, str_eq,
  ◌==◌, ltb, leb, any, find, filter_by, length, take, drop, order_by, update_where, add, map, Texts,
}
use job_finder_agent.Errors.Exceptions.{job_not_found, match_not_found}
use job_finder_agent.Session.{
  Action, ◌>>=◌, ◌>>◌, pure, fail, query, modify, draw, commit_session, refresh_session,
}
use job_finder_agent.Ingestion.Jobs.{
  Job, JobSourceRecord, Source, MatchResult, JobFeedback, Catalog, Outside,
}

-- From the database: the text of a JSON column, `lower`, and `column LIKE '%' || text || '%'`.
pub record Columns : Type 0 where
  pub json_text : List String → String
  pub lower : String → String
  pub like : String → String → Bool

-- The filters of a listing; `none` leaves a column alone, and so does an empty text, but for the
-- status, which is "active" unless it is given.
pub record JobFilters : Type 0 where
  pub min_score : Option ℕ
  pub status : Option String
  pub company : Option String
  pub location : Option String

pub record FeedbackInput : Type 0 where
  pub label : String
  pub note : Option String

pub record JobDetail : Type 0 where
  pub job : Job
  pub match_result : Option MatchResult
  pub feedback : Option JobFeedback

-- The source of a record is one of the user's.
abbrev pub is_from : ℕ → List Source → JobSourceRecord → Bool
is_from user_id sources r = any (λ s. s.id == r.source_id && s.user_id == user_id) sources

-- `JobQueryRepository._query`
unfoldable pub is_visible : ℕ → Catalog → Job → Bool
is_visible user_id d job = any (λ r. r.job_id == job.id && is_from user_id d.sources r) d.records

abbrev has_status : Option String → String → Bool
has_status none status = str_eq status "active"
has_status (some wanted) status = str_eq status wanted

abbrev has_part : (String → String → Bool) → Option String → String → Bool
has_part like none column = true
has_part like (some text) column = str_eq text "" || like column text

-- The rows of a job in the join with the matches: one for each match that reaches the score.
abbrev pub joined : Option ℕ → List MatchResult → Job → List Job
joined none matches job = job ∷ []
joined (some min_score) matches job =
    map (λ m. job) (filter_by (λ m. m.job_id == job.id && leb min_score m.outcome.score) matches)

abbrev pub join_all : Option ℕ → List MatchResult → List Job → List Job
join_all min_score matches [] = []
join_all min_score matches (job ∷ jobs) =
    joined min_score matches job ++ join_all min_score matches jobs

-- `ORDER BY last_seen_at DESC, id`
abbrev pub is_listed_before : Job → Job → Bool
is_listed_before a b =
    ltb b.last_seen_at a.last_seen_at || (b.last_seen_at == a.last_seen_at) && ltb a.id b.id

module _ (T : Texts) (C : Columns) where
  unfoldable pub is_wanted : JobFilters → Job → Bool
  is_wanted f job =
      has_status f.status job.status
      && elim f.company [
        | none ↦ true
        | some text ↦ str_eq text "" || C.like (C.lower job.company_name) (T.casefold text)
      ]
      && has_part C.like f.location (C.json_text job.locations)

  -- The rows of the query, before they are ordered.
  unfoldable pub query_rows : ℕ → JobFilters → Catalog → List Job
  unfolding is_visible is_wanted
  query_rows user_id f d =
      join_all f.min_score d.matches
        (filter_by (λ job. is_visible user_id d job && is_wanted f job) d.jobs)

  -- `JobQueryRepository.list`, and the same of the service.
  unfoldable pub list_jobs : ℕ → ℕ → ℕ → JobFilters → Action Catalog (List Job × ℕ)
  unfolding query_rows
  list_jobs user_id page page_size f = do
    total ← query (λ d. length (query_rows user_id f d))
    jobs ← query (λ d.
        take page_size
          (drop ((page - 1) * page_size) (order_by is_listed_before (query_rows user_id f d))))
    pure (jobs, total)

-- `JobQueryRepository.get`
unfoldable pub get_job : ℕ → ℕ → Action Catalog (Option Job)
unfolding is_visible
get_job user_id job_id =
    query (λ d. find (λ job. is_visible user_id d job && job.id == job_id) d.jobs)

-- `JobQueryRepository.feedback`
abbrev pub is_opinion : ℕ → ℕ → JobFeedback → Bool
is_opinion user_id job_id f = f.user_id == user_id && f.job_id == job_id

unfoldable pub feedback_of : ℕ → ℕ → Action Catalog (Option JobFeedback)
feedback_of user_id job_id = query (λ d. find (is_opinion user_id job_id) d.feedback)

unfoldable pub save_feedback : JobFeedback → Action Catalog JobFeedback
save_feedback feedback = do
  modify (λ d. record d { feedback = add feedback d.feedback })
  commit_session
  refresh_session
  pure feedback

-- `MatchingRepository.latest`: the first row by `created_at DESC`.
abbrev pub is_later : MatchResult → MatchResult → Bool
is_later a b = ltb b.created_at a.created_at

abbrev pub first : {A : Type 0} → List A → Option A
first [] = none
first (x ∷ xs) = some x

unfoldable pub latest : ℕ → Action Catalog (Option MatchResult)
latest job_id =
    query (λ d. first (order_by is_later (filter_by (λ m. m.job_id == job_id) d.matches)))

-- `JobQueryService.detail`
unfoldable pub detail : ℕ → ℕ → Action Catalog JobDetail
unfolding get_job latest feedback_of
detail user_id job_id = do
  found ← get_job user_id job_id
  elim found [
    | none ↦ fail job_not_found
    | some job ↦ (do
      newest ← latest job_id
      opinion ← feedback_of user_id job_id
      pure (record { job = job; match_result = newest; feedback = opinion }))
  ]

unfoldable pub latest_match : ℕ → ℕ → Action Catalog MatchResult
unfolding get_job latest
latest_match user_id job_id = do
  found ← get_job user_id job_id
  elim found [
    | none ↦ fail match_not_found
    | some job ↦ (do
      newest ← latest job_id
      elim newest [ none ↦ fail match_not_found | some m ↦ pure m ])
  ]

-- The change of the attributes of an object that is in the table.
abbrev pub set_opinion : FeedbackInput → JobFeedback → JobFeedback
set_opinion given f = record f { label = given.label; note = given.note }

-- `JobQueryService.feedback`
unfoldable pub give_feedback : Outside → ℕ → ℕ → FeedbackInput → Action Catalog JobFeedback
unfolding get_job feedback_of save_feedback
give_feedback O user_id job_id given = do
  found ← get_job user_id job_id
  elim found [
    | none ↦ fail job_not_found
    | some job ↦ (do
      existing ← feedback_of user_id job_id
      elim existing [
        | some f ↦ (do
          modify (λ d. record d {
            feedback = update_where (λ g. g.id == f.id) (set_opinion given) d.feedback;
          })
          commit_session
          refresh_session
          pure (set_opinion given f))
        | none ↦ (do
          id ← draw O.uuid4
          save_feedback (record {
            id = id;
            user_id = user_id;
            job_id = job_id;
            label = given.label;
            note = given.note;
          }))
      ])
  ]
