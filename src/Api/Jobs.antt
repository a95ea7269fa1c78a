-- ===== src/Api/Jobs.antt =====
-- api/v1/jobs.py (app). The user is the one that the dependency `user_id_from_current_user` gives, and
-- the numbers of a page are within the bounds that the framework checks.
use job_finder_agent.Common.{ℕ, Option, none, some, List, map, String, Texts}
use job_finder_agent.Session.{Action, ◌>>=◌, pure}
use job_finder_agent.Matching.Rules.{Decision, Components}
use job_finder_agent.Ingestion.Jobs.{Job, MatchResult, JobFeedback, Catalog, Outside}
use job_finder_agent.Jobs.Query.{
  Columns, JobFilters, FeedbackInput, list_jobs, detail, latest_match, give_feedback,
}
use job_finder_agent.Jobs.Match.{Desk, match_job}
use job_finder_agent.Api.Responses.{
  ClientRequest, SuccessResponse, success_response, paged_response,
}

pub record JobPayload : Type 0 where
  pub id : String
  pub title : String
  pub company_name : String
  pub description : String
  pub locations : List String
  pub work_mode : String
  pub application_url : String
  pub status : String
  pub last_seen_at : ℕ

-- The confidence, a constant, is left out.
pub record MatchPayload : Type 0 where
  pub id : String
  pub score : ℕ
  pub decision : Decision
  pub components : Components
  pub matched : List String
  pub missing : List String
  pub concerns : List String
  pub reasoning : String

pub record FeedbackPayload : Type 0 where
  pub id : String
  pub job_id : String
  pub label : String
  pub note : Option String

-- The answer of `get_job`, whose feedback leaves out the job's identifier.
pub record DetailPayload : Type 0 where
  pub job : JobPayload
  pub match_result : Option MatchPayload
  pub feedback : Option (String × String × Option String)

module _ (uuid_text : ℕ → String) where
  abbrev pub job_payload : Job → JobPayload
  job_payload job = record {
    id = uuid_text job.id;
    title = job.title;
    company_name = job.company_name;
    description = job.description;
    locations = job.locations;
    work_mode = job.work_mode;
    application_url = job.application_url;
    status = job.status;
    last_seen_at = job.last_seen_at;
  }

  abbrev pub match_payload : MatchResult → MatchPayload
  match_payload m = record {
    id = uuid_text m.id;
    score = m.outcome.score;
    decision = m.outcome.decision;
    components = m.outcome.component_scores;
    matched = m.outcome.matched_criteria;
    missing = m.outcome.missing_criteria;
    concerns = m.outcome.concerns;
    reasoning = m.outcome.reasoning;
  }

  abbrev pub optional_match : Option MatchResult → Option MatchPayload
  optional_match none = none
  optional_match (some m) = some (match_payload m)

  abbrev optional_feedback : Option JobFeedback → Option (String × String × Option String)
  optional_feedback none = none
  optional_feedback (some f) = some (uuid_text f.id, f.label, f.note)

  abbrev pub feedback_payload : JobFeedback → FeedbackPayload
  feedback_payload f = record {
    id = uuid_text f.id;
    job_id = uuid_text f.job_id;
    label = f.label;
    note = f.note;
  }

  module _ (user_id : ℕ) (request : ClientRequest) where
    unfoldable pub list_jobs_endpoint :
        Texts → Columns → ℕ → ℕ → JobFilters → Action Catalog (SuccessResponse (List JobPayload))
    list_jobs_endpoint T C page page_size f = do
      (jobs, total) ← list_jobs T C user_id page page_size f
      pure (paged_response (map job_payload jobs) request (some page) (some page_size) (some total))

    unfoldable pub get_job_endpoint : ℕ → Action Catalog (SuccessResponse DetailPayload)
    get_job_endpoint job_id = do
      found ← detail user_id job_id
      let payload : DetailPayload = record {
        job = job_payload found.job;
        match_result = optional_match found.match_result;
        feedback = optional_feedback found.feedback;
      }
      pure (success_response payload request)

    unfoldable pub get_match : ℕ → Action Catalog (SuccessResponse MatchPayload)
    get_match job_id = do
      m ← latest_match user_id job_id
      pure (success_response (match_payload m) request)

    unfoldable pub save_feedback_endpoint :
        Outside → ℕ → FeedbackInput → Action Catalog (SuccessResponse FeedbackPayload)
    save_feedback_endpoint O job_id given = do
      f ← give_feedback O user_id job_id given
      pure (success_response (feedback_payload f) request)

    unfoldable pub match_job_endpoint :
        Texts → (ℕ → ℕ → ℕ) → Outside → ℕ → Action Desk (SuccessResponse MatchPayload)
    match_job_endpoint T scaled O job_id = do
      m ← match_job T scaled O job_id user_id
      pure (success_response (match_payload m) request)
