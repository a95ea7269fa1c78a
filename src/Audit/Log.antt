-- ===== src/Audit/Log.antt =====
-- domain/audit/service.py and repositories/audit.py (app): writing and searching events.
use job_finder_agent.Common.{
  ℕ, ◌-◌, ◌*◌, Bool, true, false, ◌&&◌, ◌||◌, not, Option, none, some, List, String, str_eq, ◌==◌,
  ltb, leb, filter_by, length, add, take, drop, order_by,
}
use job_finder_agent.Session.{
  Action, ◌>>=◌, ◌>>◌, pure, query, modify, draw, commit_session, refresh_session,
}
use job_finder_agent.Auth.Models.{AuditEvent, Identity}
use job_finder_agent.Auth.Platform.{Platform}

-- The arguments of `record`: those that an endpoint gives, and those that come with the request. The
-- resource's identifier is its text.
pub record Entry : Type 0 where
  pub action : String
  pub resource_type : String
  pub resource_id : Option String
  pub actor_user_id : Option ℕ
  pub success : Bool
  pub metadata : List (String × String)

pub record Context : Type 0 where
  pub ip_address : Option String
  pub user_agent : Option String
  pub request_id : Option String

-- `AuditRepository.create`
unfoldable pub create_event : AuditEvent → Action Identity AuditEvent
create_event event = do
  modify (λ d. record d { audit_events = add event d.audit_events })
  commit_session
  refresh_session
  pure event

abbrev pub event_of : ℕ → ℕ → Entry → Context → AuditEvent
event_of id now e c = record {
  id = id;
  actor_user_id = e.actor_user_id;
  action = e.action;
  resource_type = e.resource_type;
  resource_id = e.resource_id;
  success = e.success;
  ip_address = c.ip_address;
  user_agent = c.user_agent;
  request_id = c.request_id;
  event_metadata = e.metadata;
  created_at = now;
}

-- `AuditService.record`
unfoldable pub record_event : Platform → Entry → Context → Action Identity AuditEvent
unfolding create_event
record_event P e c = do id ← draw P.uuid4; now ← draw P.now; create_event (event_of id now e c)

-- The filters of a search; `none` leaves a column alone, and so does an empty text.
pub record Filters : Type 0 where
  pub actor_user_id : Option ℕ
  pub action : Option String
  pub resource_type : Option String
  pub resource_id : Option String
  pub success : Option Bool
  pub created_after : Option ℕ
  pub created_before : Option ℕ

abbrev pub fits_id : Option ℕ → Option ℕ → Bool
fits_id none column = true
fits_id (some id) none = false
fits_id (some id) (some column) = column == id

abbrev pub fits_text : Option String → Option String → Bool
fits_text none column = true
fits_text (some text) none = str_eq text ""
fits_text (some text) (some column) = str_eq text "" || str_eq column text

abbrev pub fits_bool : Option Bool → Bool → Bool
fits_bool none column = true
fits_bool (some true) column = column
fits_bool (some false) column = not column

abbrev pub fits_after : Option ℕ → ℕ → Bool
fits_after none column = true
fits_after (some moment) column = leb moment column

abbrev pub fits_before : Option ℕ → ℕ → Bool
fits_before none column = true
fits_before (some moment) column = leb column moment

-- `AuditRepository._query`
unfoldable pub fits : Filters → AuditEvent → Bool
fits f e =
    fits_id f.actor_user_id e.actor_user_id
    && fits_text f.action (some e.action)
    && fits_text f.resource_type (some e.resource_type)
    && fits_text f.resource_id e.resource_id
    && fits_bool f.success e.success
    && fits_after f.created_after e.created_at
    && fits_before f.created_before e.created_at

-- `ORDER BY created_at DESC, id DESC`
abbrev pub is_newer : AuditEvent → AuditEvent → Bool
is_newer a b = ltb b.created_at a.created_at || (b.created_at == a.created_at) && ltb b.id a.id

-- `AuditRepository.search` and `count`
unfoldable pub search_events : ℕ → ℕ → Filters → Action Identity (List AuditEvent)
unfolding fits
search_events offset limit f =
    query (λ d. take limit (drop offset (order_by is_newer (filter_by (fits f) d.audit_events))))

unfoldable pub count_events : Filters → Action Identity ℕ
unfolding fits
count_events f = query (λ d. length (filter_by (fits f) d.audit_events))

-- `AuditService.search` and `export`
unfoldable pub search_page : ℕ → ℕ → Filters → Action Identity (List AuditEvent × ℕ)
unfolding search_events count_events
search_page page page_size f = do
  events ← search_events ((page - 1) * page_size) page_size f
  total ← count_events f
  pure (events, total)

unfoldable pub export_events : ℕ → Filters → Action Identity (List AuditEvent)
unfolding search_events
export_events page_size f = search_events 0 page_size f
