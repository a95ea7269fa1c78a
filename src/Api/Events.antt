-- ===== src/Api/Events.antt =====
-- api/v1/audit.py and domain/audit/schemas.py (app): the administrator's search and export of events.
-- The writer of CSV lines and the one of JSON are parameters.
use job_finder_agent.Common.{ℕ, Bool, Option, some, List, [], ◌∷◌, map, String}
use job_finder_agent.Session.{Action, ◌>>=◌, pure}
use job_finder_agent.Auth.Models.{AuditEvent, Identity}
use job_finder_agent.Auth.Platform.{Platform, Settings}
use job_finder_agent.Auth.Access.{Authorization}
use job_finder_agent.Audit.Log.{Filters, search_page, export_events}
use job_finder_agent.Api.Responses.{ClientRequest, SuccessResponse, paged_response}
use job_finder_agent.Api.Sessions.{require_admin}

pub record AuditEventResponse : Type 0 where
  pub id : ℕ
  pub actor_user_id : Option ℕ
  pub action : String
  pub resource_type : String
  pub resource_id : Option String
  pub success : Bool
  pub ip_address : Option String
  pub user_agent : Option String
  pub request_id : Option String
  pub metadata : List (String × String)
  pub created_at : ℕ

-- `AuditEventResponse.from_model`
abbrev from_model : AuditEvent → AuditEventResponse
from_model e = record {
  id = e.id;
  actor_user_id = e.actor_user_id;
  action = e.action;
  resource_type = e.resource_type;
  resource_id = e.resource_id;
  success = e.success;
  ip_address = e.ip_address;
  user_agent = e.user_agent;
  request_id = e.request_id;
  metadata = e.event_metadata;
  created_at = e.created_at;
}

pub data Format : Type 0 where
  json csv : Format

-- A streamed answer: its chunks, its media type and the name of the attachment.
pub record Download : Type 0 where
  pub chunks : List String
  pub media_type : String
  pub filename : String

-- `json.dumps` of the rows, a line of CSV for a row, and one for the header's names.
pub record Writers : Type 0 where
  pub json_dumps : List AuditEventResponse → String
  pub csv_row : AuditEventResponse → String
  pub csv_header : List String → String

abbrev all_fields : List String
all_fields =
    "id" ∷ "actor_user_id" ∷ "action" ∷ "resource_type" ∷ "resource_id" ∷ "success" ∷ "ip_address"
    ∷ "user_agent" ∷ "request_id" ∷ "metadata" ∷ "created_at" ∷ []

-- `fieldnames`
abbrev field_names : List AuditEventResponse → List String
field_names [] = "id" ∷ "action" ∷ "success" ∷ "created_at" ∷ []
field_names (row ∷ rows) = all_fields

abbrev download : Writers → Format → List AuditEventResponse → Download
download W json rows = record {
  chunks = W.json_dumps rows ∷ [];
  media_type = "application/json";
  filename = "audit-events.json";
}
download W csv rows = record {
  chunks = W.csv_header (field_names rows) ∷ map W.csv_row rows;
  media_type = "text/csv";
  filename = "audit-events.csv";
}

-- The rows that an export holds at most.
abbrev export_limit : ℕ
export_limit = 1000

module _ (P : Platform) (cfg : Settings) (authorization : Option Authorization) (f : Filters) where
  unfoldable pub search_audit_events :
      ClientRequest → ℕ → ℕ → Action Identity (SuccessResponse (List AuditEventResponse))
  search_audit_events request page page_size = do
    admin ← require_admin P cfg authorization
    (events, total) ← search_page page page_size f
    pure (paged_response (map from_model events) request (some page) (some page_size) (some total))

  unfoldable pub export_audit_events : Writers → Format → Action Identity Download
  export_audit_events W format = do
    admin ← require_admin P cfg authorization
    events ← export_events export_limit f
    pure (download W format (map from_model events))
