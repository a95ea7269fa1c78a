-- ===== src/Deletion/Erased.antt =====
-- What the deletion of a user leaves.
use job_finder_agent.Common.{
  ℕ, ◌≡◌, ◌⊎◌, inl, inr, refl, true, false, none, some, List, [], ◌∷◌, map, find, filter_by, ◌==◌,
  if◌then◌else◌, Bool-cases, arith, Option-cases,
}
use job_finder_agent.Errors.Exceptions.{ErrorClass, user_not_found}
use job_finder_agent.Session.{
  Session, ok, raise, app, commit_session, commit_session_atomic, pure, ◌>>◌, ◌>>=◌,
}
use job_finder_agent.Auth.Models.{AuthSession, VerificationCode, UserRole, User}
use job_finder_agent.Preferences.Store.{Profile}
use job_finder_agent.Ingestion.Jobs.{Source, JobFeedback}
use job_finder_agent.Database.{Records}
use job_finder_agent.Deletion.{user_goes, erase, delete_user, lost_users}
use job_finder_agent.Deletion.Keys.{IsReferential, anonymous, identity-erase, catalog-erase}
use job_finder_agent.Deletion.Tables.{
  has_id, ids_of, has_id-deleted, filter_by-deleted, delete_rows, filter_by-delete_rows,
  map-update_where, named_by,
}

-- The rows of one user, in the tables that name their user.
pub record Belongings : Type 0 where
  pub sources : List Source
  pub profiles : List Profile
  pub feedback : List JobFeedback
  pub auth_sessions : List AuthSession
  pub verification_codes : List VerificationCode
  pub user_roles : List UserRole

abbrev belongings : ℕ → Records → Belongings
belongings v d = record {
  sources = filter_by (λ x. x.user_id == v) d.catalog.sources;
  profiles = filter_by (λ p. p.user_id == v) d.profiles;
  feedback = filter_by (λ f. f.user_id == v) d.catalog.feedback;
  auth_sessions = filter_by (λ a. a.user_id == v) d.identity.auth_sessions;
  verification_codes = filter_by (λ c. c.user_id == v) d.identity.verification_codes;
  user_roles = filter_by (λ r. r.user_id == v) d.identity.user_roles;
}

abbrev no_belongings : Belongings
no_belongings = record {
  sources = [];
  profiles = [];
  feedback = [];
  auth_sessions = [];
  verification_codes = [];
  user_roles = [];
}

pub record IsErased (user_id : ℕ) (before after : Records) : Type 0 where
  pub referential : IsReferential after
  pub absent : has_id (λ u. u.id) after.identity.users user_id ≡ false
  pub owned :
      (v : ℕ) → belongings v after ≡ (if v == user_id then no_belongings else belongings v before)
  pub jobs : after.catalog.jobs ≡ before.catalog.jobs
  pub events :
      map anonymous after.identity.audit_events ≡ map anonymous before.identity.audit_events

ids_of-other :
    (user_id v : ℕ) (users : List User)
    → (v == user_id) ≡ false
    → ids_of (λ u. u.id == user_id) (λ u. u.id) users v ≡ false
ids_of-other user_id v [] other = refl
ids_of-other user_id v (u ∷ users) other = ground (arith, ids_of-other user_id v users other)

ids_of-found :
    (user_id : ℕ) (users : List User) (u : User)
    → find (λ u. u.id == user_id) users ≡ some u
    → ids_of (λ u. u.id == user_id) (λ u. u.id) users user_id ≡ true
unfolding find
ids_of-found user_id [] u e = cc
ids_of-found user_id (x ∷ users) u e = ground (arith, ids_of-found user_id users u)

module _ (user_id : ℕ) (d : Records) where
  lost-found :
      (u : User)
      → find (λ u. u.id == user_id) d.identity.users ≡ some u
      → lost_users user_id d user_id ≡ true
  lost-found u e = ids_of-found user_id d.identity.users u e

  lost_users-other : (v : ℕ) → (v == user_id) ≡ false → lost_users user_id d v ≡ false
  lost_users-other v other = ids_of-other user_id v d.identity.users other

  module _ {A : Type 0} (key : A → ℕ) where
    -- In a table that names its user, the rows of another user stay, and those of the user go.
    others_kept :
        (rows : List A) (v : ℕ)
        → (v == user_id) ≡ false
        → filter_by (λ r. key r == v) (delete_rows (λ r. lost_users user_id d (key r)) rows)
          ≡ filter_by (λ r. key r == v) rows
    others_kept rows v other =
        filter_by-delete_rows (λ r. key r == v) (λ r. lost_users user_id d (key r)) rows
          (λ r is. let same : key r ≡ v = ground arith in rw same (lost_users-other v other))

    own_gone :
        (rows : List A) (v : ℕ)
        → (v == user_id) ≡ true
        → lost_users user_id d user_id ≡ true
        → filter_by (λ r. key r == v) (delete_rows (λ r. lost_users user_id d (key r)) rows) ≡ []
    own_gone rows v own lost =
        filter_by-deleted (λ r. key r == v) (λ r. lost_users user_id d (key r)) rows
          (λ r is. let same : key r ≡ user_id = ground arith in rw same lost)

  belongings-erase :
      (v : ℕ)
      → lost_users user_id d user_id ≡ true
      → belongings v (erase user_id d) ≡ (if v == user_id then no_belongings else belongings v d)
  unfolding erase
  belongings-erase v lost = elim (Bool-cases (v == user_id)) [
    | inl own ↦ rw (
      own,
      own_gone (λ x. x.user_id) d.catalog.sources v own lost,
      own_gone (λ x. x.user_id) d.profiles v own lost,
      own_gone (λ x. x.user_id) d.catalog.feedback v own lost,
      own_gone (λ x. x.user_id) d.identity.auth_sessions v own lost,
      own_gone (λ x. x.user_id) d.identity.verification_codes v own lost,
      own_gone (λ x. x.user_id) d.identity.user_roles v own lost,
    )
    | inr other ↦ rw (
      other,
      others_kept (λ x. x.user_id) d.catalog.sources v other,
      others_kept (λ x. x.user_id) d.profiles v other,
      others_kept (λ x. x.user_id) d.catalog.feedback v other,
      others_kept (λ x. x.user_id) d.identity.auth_sessions v other,
      others_kept (λ x. x.user_id) d.identity.verification_codes v other,
      others_kept (λ x. x.user_id) d.identity.user_roles v other,
    )
  ]

  erase-IsErased :
      lost_users user_id d user_id ≡ true → IsReferential d → IsErased user_id d (erase user_id d)
  unfolding erase
  erase-IsErased lost h = record {
    referential = record {
      within_identity = identity-erase user_id d h;
      within_catalog = catalog-erase user_id d h;
    };
    absent = has_id-deleted (user_goes user_id d) (λ u. u.id) user_id d.identity.users (λ r. refl);
    owned = λ v. belongings-erase v lost;
    jobs = refl;
    events =
        map-update_where anonymous (λ e. named_by (lost_users user_id d) e.actor_user_id) anonymous
          d.identity.audit_events (λ r. refl);
  }

module _ (user_id : ℕ) (s : Session Records) where
  delete_user_missing :
      find (λ u. u.id == user_id) s.db.identity.users ≡ none
      → delete_user user_id s ≡ (raise (app user_not_found), s)
  unfolding delete_user
  delete_user_missing e = ground arith

  delete_user_found :
      (u : User)
      → find (λ u. u.id == user_id) s.db.identity.users ≡ some u
      → delete_user user_id s
        ≡ (do commit_session; pure true) (record s { db = erase user_id s.db })
  unfolding delete_user
  delete_user_found u e = ground arith

-- Deleting a user leaves no row of the user behind and no key dangling. A user that is not there is
-- answered with UserNotFound, and nothing changes. Otherwise an error is raised and what is saved is as
-- it was, or in what is saved there is no such user, every key names a row that is there, the user's
-- sources, profiles, feedback, sessions, codes and roles are gone, those of every other user are as they
-- were, no job is touched, and every audit event is kept, at most without its actor. The keys must name
-- rows that are there before.
pub delete_user-IsErased :
    (user_id : ℕ) (s : Session Records)
    → IsReferential s.db
    → let (r, s') = delete_user user_id s in
      (find (λ u. u.id == user_id) s.db.identity.users ≡ none)
        × (r ≡ raise (app user_not_found))
        × (s' ≡ s)
      ⊎ ((e : ErrorClass) × (r ≡ raise (app e)) × (s'.saved ≡ s.saved))
      ⊎ (r ≡ ok true) × IsErased user_id s.db s'.saved
delete_user-IsErased user_id s h =
    elim (Option-cases (find (λ u. u.id == user_id) s.db.identity.users)) [
      | inl e ↦ rw (delete_user_missing user_id s e) (inl (e, refl, refl))
      | inr (u, e) ↦
          let (clean, out) = commit_session_atomic (record s { db = erase user_id s.db }) in
          inr (elim out [
            | inl (works, saved) ↦ inr (
                rw (delete_user_found user_id s u e, works, ◌>>◌, ◌>>=◌)
                  (refl, rw saved (erase-IsErased user_id s.db (lost-found user_id s.db u e) h)))
            | inr (x, fails, saved) ↦
                inl (rw (delete_user_found user_id s u e, fails, ◌>>◌, ◌>>=◌) (x, refl, saved))
          ])
    ]
