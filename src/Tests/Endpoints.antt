-- ===== src/Tests/Endpoints.antt =====
-- The endpoints, for one user, and the trail of two events.
use job_finder_agent.Auth.Repository.{revoke_tokens, refresh_token, revoke_auth_session}
use job_finder_agent.Common.{
  ◌↔◌, true, ℕ, ◌≡◌, ◌≢◌, ◌⊎◌, ◌++◌, refl, arith, true, not, none, some, List, [], ◌∷◌, All, find,
  length, order_by,
}
use mathlib.Core.List.{Perm}
use job_finder_agent.Errors.Exceptions.{ErrorClass}
use job_finder_agent.Session.{later_faults, next_fault, commit_session, Session, ok, raise, app}
use job_finder_agent.Session.Pages.{read_pages}
use job_finder_agent.Auth.Models.{AuditEvent, Identity}
use job_finder_agent.Auth.Service.{refresh}
use job_finder_agent.Auth.Rotation.{FamilyRevoked}
use job_finder_agent.Audit.Log.{fits, Filters, is_newer, search_page}
use job_finder_agent.Audit.Retention.{Archive, Retained, apply_retention, events_before, is_before}
use job_finder_agent.Audit.Kept.{apply_retention-perm}
use job_finder_agent.Audit.Fits.{Fits, IsNewestFirst}
use job_finder_agent.Audit.Pages.{matching, search_page-matching}
use job_finder_agent.Api.Responses.{ClientRequest}
use job_finder_agent.Api.Accounts.{login, request_password_reset}
use job_finder_agent.Api.Sessions.{logout, create_role_endpoint, assign_role_endpoint}
use job_finder_agent.Api.Recorded.{IsRecorded, login-IsRecorded}
use job_finder_agent.Api.Logout.{logout-refresh}
use job_finder_agent.Api.Admin.{IsAdmin, Refused, role_endpoints-IsAdmin}
use job_finder_agent.Api.Reset.{request_password_reset-same}
use job_finder_agent.Tests.Accounts.{platform, settings, ada, token, identity, session}

abbrev start : Session Identity
start = session (identity ada token)

abbrev browser_request : ClientRequest
browser_request = record {
  ip_address = some "10.0.0.1";
  user_agent = some "browser";
  device_name = none;
  request_id = some "r1";
  session_id = some 2;
}

login-IsRecorded_example :
    IsRecorded "user.logged_in" "user.login.failed" []
      (login platform settings browser_request "ada@example.org" "pass" start)
login-IsRecorded_example =
    login-IsRecorded platform settings browser_request "ada@example.org" "pass" start refl

abbrev signed_out : Session Identity
signed_out = (logout platform settings "old" start).1

logout-refresh_example :
    FamilyRevoked 3 signed_out.saved.refresh_tokens
    × ((refresh platform settings "old" signed_out).0 ≢ ok ("access", "new"))
unfolding logout find refresh_token revoke_tokens revoke_auth_session commit_session next_fault
    later_faults
logout-refresh_example =
    logout-refresh platform settings "old" start token signed_out ("access", "new") refl refl refl

role_endpoints-IsAdmin_example :
    (IsAdmin platform settings none start
      ⊎ Refused platform settings start
          (create_role_endpoint platform settings none "editor" none browser_request start))
    × (IsAdmin platform settings none start
        ⊎ Refused platform settings start
            (assign_role_endpoint platform settings none 1 "editor" start))
role_endpoints-IsAdmin_example =
    role_endpoints-IsAdmin platform settings none start refl "editor" none browser_request 1

request_password_reset-same_example :
    let (r, s') =
      request_password_reset platform settings browser_request "ada@example.org" start in
    (r ≡ (request_password_reset platform settings browser_request "bob@example.org" start).0)
    × (s'.saved.users ≡ start.db.users)
    × (s'.saved.refresh_tokens ≡ start.db.refresh_tokens)
    × (s'.saved.auth_sessions ≡ start.db.auth_sessions)
request_password_reset-same_example =
    request_password_reset-same platform settings browser_request "ada@example.org"
      "bob@example.org" start start refl refl

abbrev signed_in_at : ℕ → AuditEvent
signed_in_at moment = record {
  id = moment;
  actor_user_id = some 1;
  action = "user.logged_in";
  resource_type = "user";
  resource_id = none;
  success = true;
  ip_address = none;
  user_agent = none;
  request_id = none;
  event_metadata = [];
  created_at = moment;
}

-- One event from before the cutoff, and one from after it.
abbrev trail : Session Identity
trail =
    session (record (identity ada token) { audit_events = signed_in_at 4 ∷ signed_in_at 12 ∷ [] })

abbrev shelf : Archive
shelf = record { session = trail; lines = [] }

apply_retention-perm_example :
    let (r, w') = apply_retention platform 0 true shelf in
    let written = events_before 10 shelf.session.db in
    (w'.lines ≡ shelf.lines ++ written)
    × (((result : Retained) × (r ≡ ok result)
          × Perm (w'.session.saved.audit_events ++ written) shelf.session.db.audit_events
          × All (λ e. not (is_before 10 e) ≡ true) w'.session.saved.audit_events
          × (result.deleted ≡ length written)
          × (result.archived ≡ length written))
        ⊎ (e : ErrorClass) × (r ≡ raise (app e)) × (w'.session.saved ≡ shelf.session.saved))
apply_retention-perm_example = apply_retention-perm platform 0 shelf

abbrev successes : Filters
successes = record {
  actor_user_id = none;
  action = none;
  resource_type = none;
  resource_id = none;
  success = some true;
  created_after = none;
  created_before = none;
}

search_page-matching_example :
    (read_pages (λ page. search_page page 1 successes) 1 2 trail
      ≡ (ok (order_by is_newer (matching 1 successes trail.db)), trail))
    × Perm (order_by is_newer (matching 1 successes trail.db)) (matching 1 successes trail.db)
    × IsNewestFirst (order_by is_newer (matching 1 successes trail.db))
    × ((e : AuditEvent) → (fits successes e ≡ true) ↔ Fits successes e)
    × ((page : ℕ)
        → (events : List AuditEvent) × ((search_page page 1 successes trail).0
            ≡ ok (events, length (matching 1 successes trail.db))))
search_page-matching_example = search_page-matching 1 successes 2 trail (ground arith)
