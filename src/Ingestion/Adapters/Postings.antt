-- ===== src/Ingestion/Adapters/Postings.antt =====
-- ingestion/greenhouse/adapter.py and ingestion/lever/adapter.py (app): the record of one entry.
use job_finder_agent.Common.{
  ℕ, suc, Bool, true, false, Option, none, some, List, [], ◌∷◌, String, if◌then◌else◌,
}
use job_finder_agent.Ingestion.Adapters.Json.{
  Json, null, text, object, end, Error, key_error, type_error, attribute_error, Python, value,
  error, ◌>>=◌, get, index, is_falsy,
}

-- `RawJobRecord`, whose fields take whatever the source sent. `json_text` is `str`.
pub record RawRecord : Type 0 where
  pub external_id : String
  pub title : Json
  pub description : Json
  pub application_url : Json
  pub location : Json
  pub raw_payload : Json

module _ (json_text : Json → String) where
  unfoldable pub greenhouse_record : Json → Python RawRecord
  greenhouse_record job = do
    given ← get job "location" null
    location ← get (if is_falsy given then object end else given) "name" null
    id ← index job "id"
    title ← index job "title"
    description ← get job "content" (text "")
    application_url ← get job "absolute_url" (text "")
    value (record {
      external_id = json_text id;
      title = title;
      description = description;
      application_url = application_url;
      location = location;
      raw_payload = job;
    })

  unfoldable pub lever_record : Json → Python RawRecord
  lever_record job = do
    categories ← get job "categories" (object end)
    id ← index job "id"
    title ← index job "text"
    long ← get job "description" (text "")
    description ← get job "descriptionPlain" long
    application_url ← get job "hostedUrl" (text "")
    location ← get categories "location" null
    value (record {
      external_id = json_text id;
      title = title;
      description = description;
      application_url = application_url;
      location = location;
      raw_payload = job;
    })

-- `except (KeyError, TypeError)`
abbrev pub is_malformed : Error → Bool
is_malformed key_error = true
is_malformed type_error = true
is_malformed attribute_error = false

-- What the entries of one page yield: the records, the malformed ones that are counted, and the
-- exception that ends the fetch.
pub record Yielded : Type 0 where
  pub records : List RawRecord
  pub malformed : ℕ
  pub raised : Option Error

-- The inner loop of `fetch`.
unfoldable pub yield_all : (Json → Python RawRecord) → List Json → Yielded
yield_all read [] = record { records = []; malformed = 0; raised = none }
yield_all read (job ∷ jobs) =
    let rest = yield_all read jobs in
    elim (read job) [
      | value p ↦ record rest { records = p ∷ rest.records }
      | error e ↦
          if is_malformed e
          then record rest { malformed = suc rest.malformed }
          else record { records = []; malformed = 0; raised = some e }
    ]
