-- ===== src/Errors/Validation.antt =====
-- errors/handlers.py (app): the answer to a request whose data is refused.
use job_finder_agent.Common.{
  Option, some, List, [], ◌∷◌, map, String, str_eq, Texts, ◌⧺◌, or_default, if◌then◌else◌,
}
use job_finder_agent.Errors.Exceptions.{Detail}
use job_finder_agent.Errors.Handlers.{ErrorDetail, Response, build_error_payload}

-- An entry of `error.errors()`: its place and its parts as texts, its type, and the limits of its
-- context as texts, with "None" for a missing one.
pub record Refusal : Type 0 where
  pub loc : List String
  pub type : Option String
  pub min_length : String
  pub max_length : String

-- `str.replace("_", " ")` and `str.capitalize` are parameters.
pub record Labels : Type 0 where
  pub spaced : String → String
  pub capitalize : String → String

-- `messages.get(code, …)`
abbrev message_for : String → String → String → String → String
message_for code label min_length max_length =
    if str_eq code "missing"
    then label ⧺ " is required"
    else if str_eq code "string_too_short"
    then label ⧺ " must be at least " ⧺ min_length ⧺ " characters"
    else if str_eq code "string_too_long"
    then label ⧺ " must be at most " ⧺ max_length ⧺ " characters"
    else if str_eq code "value_error.email"
    then label ⧺ " must be a valid email address"
    else label ⧺ " is invalid"

-- `_validation_message`
unfoldable validation_message : Labels → Refusal → String → String
validation_message L r field =
    message_for (or_default r.type "") (L.capitalize (L.spaced field)) r.min_length r.max_length

abbrev field_of : Texts → List String → String
field_of T [] = "request"
field_of T (place ∷ parts) =
    let joined = T.join "." parts in if str_eq joined "" then "request" else joined

abbrev location_of : List String → String
location_of [] = "request"
location_of (place ∷ parts) = place

unfoldable detail_of : Texts → Labels → Refusal → Detail
unfolding validation_message
detail_of T L r = record {
  field = field_of T r.loc;
  location = location_of r.loc;
  code = or_default r.type "validation_error";
  message = validation_message L r (field_of T r.loc);
}

unfoldable validation_error_payload : Texts → Labels → List Refusal → String → ErrorDetail
unfolding detail_of build_error_payload
validation_error_payload T L errors request_id =
    build_error_payload "VALIDATION_ERROR" "The request contains invalid data" request_id
      (some (map (detail_of T L) errors))

unfoldable request_validation_error_handler : Texts → Labels → String → List Refusal → Response
unfolding validation_error_payload
request_validation_error_handler T L request_id errors = record {
  status_code = 422;
  content = validation_error_payload T L errors request_id;
  headers = [];
}
