-- ===== src/Tests/Upkeep.antt =====
-- The deletion of a user, backups, release notes, and the middleware of the application.
use job_finder_agent.Common.{ℕ, ◌≡◌, ◌⊎◌, refl, true, none, some, [], ◌∷◌, find, ◌==◌}
use job_finder_agent.Errors.Exceptions.{ErrorClass, user_not_found}
use job_finder_agent.Session.{Session, ok, raise, app}
use job_finder_agent.Auth.Models.{User, active, AuthSession, RefreshToken, AuditEvent}
use job_finder_agent.Database.{Records}
use job_finder_agent.Deletion.{delete_user}
use job_finder_agent.Deletion.Erased.{IsErased, delete_user-IsErased}
use job_finder_agent.Notifications.Deliveries.{Delivery}
use job_finder_agent.Tests.Work.{board, run, done}
use job_finder_agent.Tests.Board.{engineer, posted_by, profile, made}

abbrev member : ℕ → User
member id = record {
  id = id;
  email = none;
  password_hash = none;
  status = active;
  email_verified_at = none;
  failed_login_attempts = 0;
  locked_until = none;
}

abbrev device : AuthSession
device = record {
  id = 3;
  user_id = 1;
  device_name = none;
  user_agent = none;
  ip_address = none;
  revoked_at = none;
}

abbrev token : RefreshToken
token = record {
  user_id = 1;
  session_id = some 3;
  token_hash = "h";
  family_id = 5;
  expires_at = 100;
  revoked_at = none;
}

abbrev event : AuditEvent
event = record {
  id = 11;
  actor_user_id = some 1;
  action = "user.logged_in";
  resource_type = "session";
  resource_id = none;
  success = true;
  ip_address = none;
  user_agent = none;
  request_id = none;
  event_metadata = [];
  created_at = 0;
}

abbrev delivery : Delivery
delivery = record done { job_id = 7; profile_id = 6 }

-- Two users, the first with a row in most tables.
abbrev stored : Records
stored = record {
  identity = record {
    users = member 1 ∷ member 2 ∷ [];
    roles = [];
    user_roles = [];
    refresh_tokens = token ∷ [];
    auth_sessions = device ∷ [];
    verification_codes = [];
    audit_events = event ∷ [];
  };
  catalog = record {
    sources = board ∷ [];
    runs = run ∷ [];
    jobs = engineer ∷ [];
    records = posted_by 4 ∷ [];
    matches = made ∷ [];
    feedback = [];
  };
  profiles = profile ∷ [];
  deliveries = delivery ∷ [];
}

abbrev pub everything : Session Records
everything = record { db = stored; saved = stored; faults = []; ticks = 0 }

delete_user-IsErased_example :
    let (r, s') = delete_user 1 everything in
    (find (λ u. u.id == 1) stored.identity.users ≡ none)
      × (r ≡ raise (app user_not_found))
      × (s' ≡ everything)
    ⊎ ((e : ErrorClass) × (r ≡ raise (app e)) × (s'.saved ≡ stored))
    ⊎ (r ≡ ok true) × IsErased 1 stored s'.saved
delete_user-IsErased_example = delete_user-IsErased 1 everything (record {
  within_identity = (tt, tt, (refl, tt), (refl, tt), (refl, tt), tt, (refl, tt), (refl, tt));
  within_catalog = (
    (refl, tt),
    (refl, tt),
    (refl, tt),
    (refl, tt),
    (refl, tt),
    (refl, tt),
    tt,
    tt,
    (refl, tt),
    (refl, tt),
    (refl, tt),
  );
})
