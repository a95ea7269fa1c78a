-- ===== src/Deletion.antt =====
-- domain/preferences/deletion_service.py and api/v1/users.py (app): the deletion of a user. The database
-- is asked to delete the row of the user alone; what goes with it is what the foreign keys of the models
-- declare (`ondelete`), in domain/preferences/models.py, ingestion/models.py, domain/jobs,
-- domain/matching/models.py and domain/notifications/models.py.
pub mod Tables
pub mod Keys
pub mod Erased
use job_finder_agent.Common.{
  ℕ, Bool, true, false, ◌||◌, not, Option, none, some, List, find, update_where, ◌==◌,
}
use job_finder_agent.Errors.Exceptions.{user_not_found}
use job_finder_agent.Session.{Action, ◌>>=◌, ◌>>◌, pure, fail, query, modify, commit_session}
use job_finder_agent.Auth.Models.{
  User, UserRole, RefreshToken, AuthSession, VerificationCode, AuditEvent, Identity,
}
use job_finder_agent.Preferences.Store.{Profile}
use job_finder_agent.Database.{Records}
use job_finder_agent.Notifications.Deliveries.{Delivery}
use job_finder_agent.Ingestion.Jobs.{
  Source, IngestionRun, JobSourceRecord, MatchResult, JobFeedback, Catalog,
}
use job_finder_agent.Deletion.Tables.{delete_rows, ids_of, named_by}

abbrev clear_actor : AuditEvent → AuditEvent
clear_actor e = record e { actor_user_id = none }

-- The rows that go with a user, table by table, each by the foreign keys of its model.
module _ (user_id : ℕ) (d : Records) where
  abbrev pub user_goes : User → Bool
  user_goes u = u.id == user_id

  abbrev pub lost_users : ℕ → Bool
  lost_users = ids_of user_goes (λ u. u.id) d.identity.users

  abbrev pub session_goes : AuthSession → Bool
  session_goes a = named_by lost_users (some a.user_id)

  abbrev pub token_goes : RefreshToken → Bool
  token_goes t =
      named_by lost_users (some t.user_id)
      || named_by (ids_of session_goes (λ a. a.id) d.identity.auth_sessions) t.session_id

  abbrev pub profile_goes : Profile → Bool
  profile_goes p = named_by lost_users (some p.user_id)

  abbrev pub lost_profiles : ℕ → Bool
  lost_profiles = ids_of profile_goes (λ p. p.id) d.profiles

  abbrev pub source_goes : Source → Bool
  source_goes x = named_by lost_users (some x.user_id)

  abbrev pub lost_sources : ℕ → Bool
  lost_sources = ids_of source_goes (λ x. x.id) d.catalog.sources

  abbrev pub delivery_goes : Delivery → Bool
  delivery_goes x =
      named_by lost_users (some x.user_id) || named_by lost_profiles (some x.profile_id)

  abbrev erased_identity : Identity
  erased_identity = record d.identity {
    users = delete_rows user_goes d.identity.users;
    user_roles = delete_rows (λ r. named_by lost_users (some r.user_id)) d.identity.user_roles;
    refresh_tokens = delete_rows token_goes d.identity.refresh_tokens;
    auth_sessions = delete_rows session_goes d.identity.auth_sessions;
    verification_codes =
        delete_rows (λ c. named_by lost_users (some c.user_id)) d.identity.verification_codes;
    audit_events =
        update_where (λ e. named_by lost_users e.actor_user_id) clear_actor d.identity.audit_events;
  }

  abbrev erased_catalog : Catalog
  erased_catalog = record d.catalog {
    sources = delete_rows source_goes d.catalog.sources;
    runs = delete_rows (λ r. named_by lost_sources (some r.source_id)) d.catalog.runs;
    records = delete_rows (λ r. named_by lost_sources (some r.source_id)) d.catalog.records;
    matches =
        delete_rows (λ m. named_by lost_profiles (some m.preference_profile_id)) d.catalog.matches;
    feedback = delete_rows (λ f. named_by lost_users (some f.user_id)) d.catalog.feedback;
  }

  -- `DELETE FROM users WHERE id = …`
  unfoldable pub erase : Records
  erase = record {
    identity = erased_identity;
    catalog = erased_catalog;
    profiles = delete_rows profile_goes d.profiles;
    deliveries = delete_rows delivery_goes d.deliveries;
  }

-- `DeletionService.delete_user`
unfoldable pub delete_user : ℕ → Action Records Bool
unfolding erase
delete_user user_id = do
  user ← query (λ d. find (λ u. u.id == user_id) d.identity.users)
  elim user [
    | none ↦ fail user_not_found
    | some u ↦ do modify (erase user_id); commit_session; pure true
  ]

-- The endpoint, whose answer has no body.
unfoldable delete_me : ℕ → Action Records (Unit {0})
unfolding delete_user
delete_me user_id = do deleted ← delete_user user_id; pure tt
