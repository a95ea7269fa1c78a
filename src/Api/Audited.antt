-- ===== src/Api/Audited.antt =====
-- api/v1/auth.py (app): the shape that the endpoints share. What is tried is written down, whether
-- it succeeds or is refused.
use job_finder_agent.Common.{ℕ, Bool, true, false, none, some, List, [], ◌∷◌, String, if◌then◌else◌}
use job_finder_agent.Errors.Exceptions.{ErrorClass, class_message}
use job_finder_agent.Session.{Action, ok, raise, app, other, ◌>>=◌, ◌>>◌, pure, fail}
use job_finder_agent.Auth.Models.{Identity}
use job_finder_agent.Auth.Platform.{Platform}
use job_finder_agent.Audit.Log.{Entry, Context, record_event}
use job_finder_agent.Api.Responses.{ClientRequest}

-- `try: m` with `except C as error: handler(error)` and `raise` at its end, for the classes `caught`.
unfoldable pub reraising :
    {D A : Type 0}
    → (ErrorClass → Bool)
    → Action D A
    → (ErrorClass → Action D (Unit {0}))
    → Action D A
reraising caught m handler s =
    let (r, s') = m s in
    elim r [
      | ok a ↦ (ok a, s')
      | raise e ↦ elim e [
        | app c ↦ if caught c then (do handler c; fail c) s' else (raise (app c), s')
        | other text ↦ (raise (other text), s')
      ]
    ]

-- `record_audit`, for a request and a service that records.
abbrev pub context_of : ClientRequest → Context
context_of request = record {
  ip_address = request.ip_address;
  user_agent = request.user_agent;
  request_id = request.request_id;
}

unfoldable pub record_audit : Platform → ClientRequest → Entry → Action Identity (Unit {0})
record_audit P request e = do event ← record_event P e (context_of request); pure tt

-- The entry of a refusal, and of a success that names no user.
abbrev pub failure_entry : String → String → ErrorClass → Entry
failure_entry action resource_type c = record {
  action = action;
  resource_type = resource_type;
  resource_id = none;
  actor_user_id = none;
  success = false;
  metadata = ("reason", class_message c) ∷ [];
}

abbrev pub success_entry : String → String → List (String × String) → Entry
success_entry action resource_type metadata = record {
  action = action;
  resource_type = resource_type;
  resource_id = none;
  actor_user_id = none;
  success = true;
  metadata = metadata;
}

-- The entry of a success that is a user's own.
abbrev pub success_entry_by : Platform → ℕ → String → Entry
success_entry_by P id action = record (success_entry action "user" []) {
  resource_id = some (P.uuid_text id);
  actor_user_id = some id;
}
