-- ===== src/Errors/Handlers.antt =====
-- errors/handlers.py and errors/responses.py (app): the HTTP response to an exception.
use job_finder_agent.Common.{
  ℕ, Option, none, some, List, [], ◌∷◌, any, if◌then◌else◌, String, leb, ◌==◌, or_default,
}
use job_finder_agent.Errors.Exceptions.{
  ErrorClass, AppError, Detail, authentication_required, invalid_access_token, session_revoked,
}
use job_finder_agent.Errors.Classes.{is_instance, status_for_app_error, is_mapped_app_error}

-- `ErrorDetail`, which `ErrorResponse` wraps.
pub record ErrorDetail : Type 0 where
  pub code : String
  pub message : String
  pub details : List Detail
  pub request_id : String

pub record Response : Type 0 where
  pub status_code : ℕ
  pub content : ErrorDetail
  pub headers : List (String × String)

unfoldable pub build_error_payload : String → String → String → Option (List Detail) → ErrorDetail
build_error_payload code message request_id details = record {
  code = code;
  message = message;
  details = or_default details [];
  request_id = request_id;
}

unfoldable error_payload : AppError → String → ErrorDetail
unfolding build_error_payload
error_payload error request_id =
    build_error_payload error.code error.message request_id (some error.details)

unfoldable pub unexpected_error_handler : String → Response
unfolding build_error_payload
unexpected_error_handler request_id = record {
  status_code = 500;
  content =
      build_error_payload "INTERNAL_SERVER_ERROR" "An unexpected error occurred" request_id none;
  headers = [];
}

abbrev bearer_challenge_errors : List ErrorClass
bearer_challenge_errors = authentication_required ∷ invalid_access_token ∷ session_revoked ∷ []

unfoldable pub app_error_handler : String → AppError → Response
unfolding unexpected_error_handler error_payload is_mapped_app_error status_for_app_error
    is_instance
app_error_handler request_id error =
    if is_mapped_app_error error.class
    then record {
      status_code = status_for_app_error error.class;
      content = error_payload error request_id;
      headers =
          if any (is_instance error.class) bearer_challenge_errors
          then ("WWW-Authenticate", "Bearer") ∷ []
          else [];
    }
    else unexpected_error_handler request_id

-- `HTTP_ERROR_CODES.get(status_code, "HTTP_ERROR")`
unfoldable http_error_code : ℕ → String
http_error_code n =
    if n == 400
    then "BAD_REQUEST"
    else if n == 401
    then "UNAUTHORIZED"
    else if n == 403
    then "FORBIDDEN"
    else if n == 404
    then "NOT_FOUND"
    else if n == 405
    then "METHOD_NOT_ALLOWED"
    else if n == 409
    then "CONFLICT"
    else if n == 422
    then "VALIDATION_ERROR"
    else if n == 429
    then "RATE_LIMIT_EXCEEDED"
    else "HTTP_ERROR"

-- The detail is `none` where it is no text.
unfoldable pub http_exception_handler :
    String → ℕ → Option String → List (String × String) → Response
unfolding http_error_code build_error_payload
http_exception_handler request_id status_code detail headers =
    let given = or_default detail "The request could not be processed" in
    record {
      status_code = status_code;
      content =
          if leb 500 status_code
          then build_error_payload "INTERNAL_SERVER_ERROR" "An unexpected error occurred" request_id
              none
          else build_error_payload (http_error_code status_code) given request_id none;
      headers = headers;
    }
