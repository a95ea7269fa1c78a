-- ===== src/Deletion/Keys.antt =====
-- The deletion of a user leaves no foreign key dangling.
use job_finder_agent.Common.{ℕ, refl, none, some, List, arith}
use job_finder_agent.Auth.Models.{AuditEvent}
use job_finder_agent.Database.{Records}
use job_finder_agent.Deletion.{
  user_goes, erase, lost_users, session_goes, token_goes, profile_goes, source_goes, lost_profiles,
  lost_sources, delivery_goes,
}
use job_finder_agent.Deletion.Tables.{
  Refers, delete_rows, Refers-delete_rows, Refers-kept, Refers-update_where,
}

-- Every foreign key of the models names a row that is there.
module _ (d : Records) where
  abbrev pub IdentityRefers : Type 0
  IdentityRefers =
      Refers (λ r. some r.user_id) d.identity.user_roles (λ u. u.id) d.identity.users
      × Refers (λ r. some r.role_id) d.identity.user_roles (λ r. r.id) d.identity.roles
      × Refers (λ t. some t.user_id) d.identity.refresh_tokens (λ u. u.id) d.identity.users
      × Refers (λ t. t.session_id) d.identity.refresh_tokens (λ a. a.id) d.identity.auth_sessions
      × Refers (λ a. some a.user_id) d.identity.auth_sessions (λ u. u.id) d.identity.users
      × Refers (λ c. some c.user_id) d.identity.verification_codes (λ u. u.id) d.identity.users
      × Refers (λ e. e.actor_user_id) d.identity.audit_events (λ u. u.id) d.identity.users
      × Refers (λ p. some p.user_id) d.profiles (λ u. u.id) d.identity.users

  abbrev pub CatalogRefers : Type 0
  CatalogRefers =
      Refers (λ x. some x.user_id) d.catalog.sources (λ u. u.id) d.identity.users
      × Refers (λ r. some r.source_id) d.catalog.runs (λ x. x.id) d.catalog.sources
      × Refers (λ r. some r.job_id) d.catalog.records (λ j. j.id) d.catalog.jobs
      × Refers (λ r. some r.source_id) d.catalog.records (λ x. x.id) d.catalog.sources
      × Refers (λ m. some m.job_id) d.catalog.matches (λ j. j.id) d.catalog.jobs
      × Refers (λ m. some m.preference_profile_id) d.catalog.matches (λ p. p.id) d.profiles
      × Refers (λ f. some f.user_id) d.catalog.feedback (λ u. u.id) d.identity.users
      × Refers (λ f. some f.job_id) d.catalog.feedback (λ j. j.id) d.catalog.jobs
      × Refers (λ x. some x.user_id) d.deliveries (λ u. u.id) d.identity.users
      × Refers (λ x. some x.job_id) d.deliveries (λ j. j.id) d.catalog.jobs
      × Refers (λ x. some x.profile_id) d.deliveries (λ p. p.id) d.profiles

  pub record IsReferential : Type 0 where
    pub within_identity : IdentityRefers
    pub within_catalog : CatalogRefers

-- What an event says, without who did it.
abbrev pub anonymous : AuditEvent → AuditEvent
anonymous e = record e { actor_user_id = none }

module _ (user_id : ℕ) (d : Records) where
  -- A table that names its user loses the rows of the user, and no key of it is left dangling.
  Refers-lost_users :
      {A : Type 0} (key : A → ℕ) (rows : List A)
      → Refers (λ r. some (key r)) rows (λ u. u.id) d.identity.users
      → Refers
          (λ r. some (key r))
          (delete_rows (λ r. lost_users user_id d (key r)) rows)
          (λ u. u.id)
          (delete_rows (user_goes user_id d) d.identity.users)
  Refers-lost_users key rows h =
      Refers-delete_rows (λ r. some (key r)) (λ u. u.id) (λ r. lost_users user_id d (key r))
        (user_goes user_id d) d.identity.users (λ r e. e) rows h

  tokens-erase :
      Refers (λ t. some t.user_id) d.identity.refresh_tokens (λ u. u.id) d.identity.users
      → Refers (λ t. t.session_id) d.identity.refresh_tokens (λ a. a.id) d.identity.auth_sessions
      → let left = erase user_id d in
        Refers (λ t. some t.user_id) left.identity.refresh_tokens (λ u. u.id) left.identity.users
        × Refers
            (λ t. t.session_id)
            left.identity.refresh_tokens
            (λ a. a.id)
            left.identity.auth_sessions
  unfolding erase
  tokens-erase users sessions = (
    Refers-delete_rows (λ t. some t.user_id) (λ u. u.id) (token_goes user_id d)
        (user_goes user_id d) d.identity.users (λ r e. ground arith) d.identity.refresh_tokens
        users,
    Refers-delete_rows (λ t. t.session_id) (λ a. a.id) (token_goes user_id d)
        (session_goes user_id d) d.identity.auth_sessions (λ r e. ground arith)
        d.identity.refresh_tokens sessions,
  )

  deliveries-erase :
      Refers (λ x. some x.user_id) d.deliveries (λ u. u.id) d.identity.users
      → Refers (λ x. some x.profile_id) d.deliveries (λ p. p.id) d.profiles
      → let left = erase user_id d in
        Refers (λ x. some x.user_id) left.deliveries (λ u. u.id) left.identity.users
        × Refers (λ x. some x.profile_id) left.deliveries (λ p. p.id) left.profiles
  unfolding erase
  deliveries-erase users profiles = (
    Refers-delete_rows (λ x. some x.user_id) (λ u. u.id) (delivery_goes user_id d)
        (user_goes user_id d) d.identity.users (λ r e. ground arith) d.deliveries users,
    Refers-delete_rows (λ x. some x.profile_id) (λ p. p.id) (delivery_goes user_id d)
        (profile_goes user_id d) d.profiles (λ r e. ground arith) d.deliveries profiles,
  )

  pub identity-erase : IsReferential d → IdentityRefers (erase user_id d)
  unfolding erase
  identity-erase h =
      let (user_roles, roles, tokens, token_sessions, sessions, codes, events, profiles) =
        h.within_identity in
      let kept = d.identity in
      let (tokens', token_sessions') = tokens-erase tokens token_sessions in
      (
        Refers-lost_users (λ r. r.user_id) kept.user_roles user_roles,
        Refers-kept (λ r. some r.role_id) (λ r. r.id) (λ r. lost_users user_id d r.user_id)
            kept.roles kept.user_roles roles,
        tokens',
        token_sessions',
        Refers-lost_users (λ a. a.user_id) kept.auth_sessions sessions,
        Refers-lost_users (λ c. c.user_id) kept.verification_codes codes,
        Refers-update_where (λ e. e.actor_user_id) (λ u. u.id) (user_goes user_id d) kept.users
            anonymous (λ r. refl) kept.audit_events events,
        Refers-lost_users (λ p. p.user_id) d.profiles profiles,
      )

  runs-erase :
      {A : Type 0} (key : A → ℕ) (rows : List A)
      → Refers (λ r. some (key r)) rows (λ x. x.id) d.catalog.sources
      → Refers
          (λ r. some (key r))
          (delete_rows (λ r. lost_sources user_id d (key r)) rows)
          (λ x. x.id)
          (delete_rows (source_goes user_id d) d.catalog.sources)
  runs-erase key rows h =
      Refers-delete_rows (λ r. some (key r)) (λ x. x.id) (λ r. lost_sources user_id d (key r))
        (source_goes user_id d) d.catalog.sources (λ r e. e) rows h

  pub catalog-erase : IsReferential d → CatalogRefers (erase user_id d)
  unfolding erase
  catalog-erase h =
      let (
        sources, runs, record_jobs, records, match_jobs, matches, feedback, feedback_jobs,
        deliveries, delivery_jobs, delivery_profiles,
      ) =
        h.within_catalog in
      let kept = d.catalog in
      let (deliveries', delivery_profiles') = deliveries-erase deliveries delivery_profiles in
      (
        Refers-lost_users (λ x. x.user_id) kept.sources sources,
        runs-erase (λ r. r.source_id) kept.runs runs,
        Refers-kept (λ r. some r.job_id) (λ j. j.id) (λ r. lost_sources user_id d r.source_id)
            kept.jobs kept.records record_jobs,
        runs-erase (λ r. r.source_id) kept.records records,
        Refers-kept (λ m. some m.job_id) (λ j. j.id)
            (λ m. lost_profiles user_id d m.preference_profile_id) kept.jobs kept.matches
            match_jobs,
        Refers-delete_rows (λ m. some m.preference_profile_id) (λ p. p.id)
            (λ m. lost_profiles user_id d m.preference_profile_id) (profile_goes user_id d)
            d.profiles (λ r e. e) kept.matches matches,
        Refers-lost_users (λ f. f.user_id) kept.feedback feedback,
        Refers-kept (λ f. some f.job_id) (λ j. j.id) (λ f. lost_users user_id d f.user_id) kept.jobs
            kept.feedback feedback_jobs,
        deliveries',
        Refers-kept (λ x. some x.job_id) (λ j. j.id) (delivery_goes user_id d) kept.jobs
            d.deliveries delivery_jobs,
        delivery_profiles',
      )
