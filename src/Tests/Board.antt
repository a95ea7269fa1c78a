-- ===== src/Tests/Board.antt =====
-- A job that one user sees, its feedback, its match and its listing, and the scheduler.
use job_finder_agent.Preferences.Schemas.{clean_values, validate}
use job_finder_agent.Common.{
  ℕ, ◌≡◌, ◌⊎◌, refl, arith, true, false, none, some, List, [], ◌∷◌, All, find, filter_by, length,
  order_by,
}
use mathlib.Core.List.{Perm}
use job_finder_agent.Errors.Exceptions.{job_not_found}
use job_finder_agent.Session.{
  refresh_session, next_fault, later_faults, commit_session, Session, Exception, ok, raise, app,
}
use job_finder_agent.Session.Pages.{read_pages}
use job_finder_agent.Preferences.Store.{get_active, Profile, default_weights}
use job_finder_agent.Ingestion.Jobs.{Job, JobSourceRecord, MatchResult, Catalog}
use job_finder_agent.Ingestion.Jobs.{JobCandidate, upsert}
use job_finder_agent.Ingestion.Again.{upsert-again}
use job_finder_agent.Ingestion.Adapters.Json.{Json, object, field, text, end}
use job_finder_agent.Ingestion.Adapters.Postings.{yield_all, greenhouse_record, lever_record}
use job_finder_agent.Ingestion.Adapters.Entries.{IsAccounted, adapters-IsAccounted}
use job_finder_agent.Ingestion.Scheduler.{Dispatch, schedule_due_sources}
use job_finder_agent.Ingestion.Queued.{is_stored}
use job_finder_agent.Ingestion.Dispatched.{is_for_due, schedule_due_sources-due}
use job_finder_agent.Jobs.Query.{
  Columns, JobFilters, FeedbackInput, is_listed_before, list_jobs, get_job, latest_match,
  give_feedback,
}
use job_finder_agent.Jobs.Match.{Desk, match_job, match_of}
use job_finder_agent.Jobs.Listing.{wanted, list_jobs-wanted}
use job_finder_agent.Jobs.Feedback.{IsUpdated, is_ok, seen, give_feedback-IsUpdated}
use job_finder_agent.Jobs.Matched.{IsMadeFrom, match_job-latest_match}
use job_finder_agent.Tests.Requests.{texts, wishes}
use job_finder_agent.Tests.Work.{outside, catalog}

abbrev pub engineer : Job
engineer = record {
  id = 7;
  title = "engineer";
  company_name = "Acme";
  company_normalized = "acme";
  description = "python";
  description_hash = "h";
  locations = [];
  application_url = "u";
  work_mode = "unknown";
  status = "active";
  last_seen_at = 3;
}

abbrev pub posted_by : ℕ → JobSourceRecord
posted_by source_id = record {
  id = 8;
  job_id = 7;
  source_id = source_id;
  external_id = "x";
  source_url = "u";
  raw_payload = none;
  raw_payload_hash = "h";
}

abbrev listed : Catalog
listed = record catalog.db { jobs = engineer ∷ []; records = posted_by 4 ∷ [] }

abbrev shown : Session Catalog
shown = record { db = listed; saved = listed; faults = []; ticks = 0 }

abbrev saved : FeedbackInput
saved = record { label = "saved"; note = none }

give_feedback-IsUpdated_example :
    let (r, s') = give_feedback outside 1 7 saved shown in
    (seen outside 1 7 saved shown ≡ none) × (r ≡ raise (app job_not_found)) × (s' ≡ shown)
    ⊎ (s'.saved ≡ shown.saved) × (is_ok r ≡ false)
    ⊎ IsUpdated 1 7 saved shown.db s'.saved
give_feedback-IsUpdated_example = give_feedback-IsUpdated outside 1 7 saved shown tt

abbrev columns : Columns
columns = record { json_text = λ places. ""; lower = λ x. x; like = λ column text. true }

abbrev all_active : JobFilters
all_active = record { min_score = none; status = none; company = none; location = none }

list_jobs-wanted_example :
    let jobs = wanted texts columns 1 5 all_active shown.db in
    (read_pages (λ page. list_jobs texts columns 1 page 5 all_active) 1 1 shown
      ≡ (ok (order_by is_listed_before jobs), shown))
    × Perm (order_by is_listed_before jobs) jobs
list_jobs-wanted_example = list_jobs-wanted texts columns 1 5 all_active 1 shown refl (ground arith)

abbrev pub profile : Profile
profile = record {
  id = 6;
  user_id = 1;
  version = 1;
  config = wishes;
  matching_weights = default_weights;
  is_active = true;
}

abbrev desk : Session Desk
desk = record {
  db = record {
    catalog = listed;
    preferences = record { users = 1 ∷ []; profiles = profile ∷ [] };
  };
  saved = record {
    catalog = listed;
    preferences = record { users = 1 ∷ []; profiles = profile ∷ [] };
  };
  faults = [];
  ticks = 5;
}

abbrev afterwards : Session Catalog
afterwards = record {
  db = (match_job texts (λ a b. 0) outside 7 1 desk).1.saved.catalog;
  saved = (match_job texts (λ a b. 0) outside 7 1 desk).1.saved.catalog;
  faults = [];
  ticks = 9;
}

abbrev pub made : MatchResult
made = match_of texts (λ a b. 0) outside 105 5 engineer profile wishes

match_job-latest_match_example :
    IsMadeFrom texts (λ a b. 0) outside 7 1 desk made
    × (afterwards.db.matches ≡ made ∷ [])
    × ((latest_match 1 7 afterwards).0 ≡ ok made)
unfolding get_job find match_job get_active validate clean_values commit_session next_fault
    refresh_session later_faults
match_job-latest_match_example =
    match_job-latest_match texts (λ a b. 0) outside 7 1 1 desk made afterwards refl tt refl
      (engineer, refl)

abbrev dispatch : Dispatch
dispatch = record { world = record { session = shown; locks = [] }; queue = [] }

schedule_due_sources-due_example :
    let (r, x') = schedule_due_sources texts outside (λ s. some 60) ("lever" ∷ []) 500 dispatch in
    All
      (λ p.
        is_for_due texts outside
          (λ s. some 60)
          ("lever" ∷ [])
          500
          (filter_by (λ source. source.enabled) dispatch.world.session.db.sources)
          p
        ≡ true)
      x'.queue
    × All (λ p. is_stored x'.world.session.saved p ≡ true) x'.queue
    × ((r ≡ ok (length x'.queue)) ⊎ (e : Exception) × (r ≡ raise e))
schedule_due_sources-due_example =
    schedule_due_sources-due texts outside (λ s. some 60) ("lever" ∷ []) 500 dispatch refl refl

-- The same posting with another text.
abbrev reworded : JobCandidate
reworded = record {
  title = "engineer";
  company_name = "Acme";
  company_normalized = "acme";
  description = "rust";
  description_hash = "h2";
  locations = [];
  application_url = "u";
  external_id = "x";
  raw_payload = none;
}

upsert-again_example :
    let s' = (upsert outside 4 reworded shown).1 in
    (job : Job) × ((upsert outside 4 reworded s').0 ≡ ok (job, false, false))
    × ((upsert outside 4 reworded s').1.db.jobs ≡ s'.db.jobs)
unfolding find
upsert-again_example = upsert-again outside 4 reworded shown refl (refl, tt) refl

-- An entry without a title, and one that is a text.
abbrev entries : List Json
entries = object (field "id" (text "1") end) ∷ text "?" ∷ []

adapters-IsAccounted_example :
    IsAccounted entries (yield_all (greenhouse_record (λ j. "")) entries)
    × IsAccounted entries (yield_all (lever_record (λ j. "")) entries)
adapters-IsAccounted_example = adapters-IsAccounted (λ j. "") entries
