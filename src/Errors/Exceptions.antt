-- ===== src/Errors/Exceptions.antt =====
-- errors/exceptions.py (app): the classes of the application's errors, their bases, and the code
-- and the message that each class carries. An instance may carry its own.
use job_finder_agent.Common.{Option, none, some, List, String, str_eq, if◌then◌else◌}

pub data ErrorClass : Type 0 where
  app_error bad_request_error invalid_input_error not_found_error conflict_error : ErrorClass
  authentication_error permission_denied persistence_failure database_unavailable : ErrorClass
  user_already_exists data_conflict account_locked invalid_credentials : ErrorClass
  email_verification_required invalid_access_token authentication_required : ErrorClass
  session_revoked invalid_refresh_token refresh_token_replay invalid_verification_code : ErrorClass
  feature_not_available session_management_disabled current_session_unavailable : ErrorClass
  session_not_found user_or_role_not_found user_not_found source_not_found : ErrorClass
  unsupported_source_kind ingestion_already_running run_not_found job_not_found : ErrorClass
  match_not_found active_preference_not_found notification_delivery_not_found : ErrorClass
  invalid_user_identifier : ErrorClass

-- The base class, which is none for `AppError`: its own base is Python's `Exception`.
unfoldable pub base : ErrorClass → Option ErrorClass
base app_error = none
base bad_request_error = some app_error
base invalid_input_error = some app_error
base not_found_error = some app_error
base conflict_error = some app_error
base authentication_error = some app_error
base permission_denied = some app_error
base persistence_failure = some app_error
base database_unavailable = some persistence_failure
base user_already_exists = some conflict_error
base data_conflict = some conflict_error
base account_locked = some authentication_error
base invalid_credentials = some authentication_error
base email_verification_required = some authentication_error
base invalid_access_token = some authentication_error
base authentication_required = some authentication_error
base session_revoked = some authentication_error
base invalid_refresh_token = some authentication_error
base refresh_token_replay = some invalid_refresh_token
base invalid_verification_code = some bad_request_error
base feature_not_available = some not_found_error
base session_management_disabled = some conflict_error
base current_session_unavailable = some conflict_error
base session_not_found = some not_found_error
base user_or_role_not_found = some not_found_error
base user_not_found = some not_found_error
base source_not_found = some not_found_error
base unsupported_source_kind = some invalid_input_error
base ingestion_already_running = some conflict_error
base run_not_found = some not_found_error
base job_not_found = some not_found_error
base match_not_found = some not_found_error
base active_preference_not_found = some not_found_error
base notification_delivery_not_found = some not_found_error
base invalid_user_identifier = some bad_request_error

unfoldable pub class_code : ErrorClass → String
class_code app_error = "APPLICATION_ERROR"
class_code bad_request_error = "BAD_REQUEST"
class_code invalid_input_error = "INVALID_INPUT"
class_code not_found_error = "RESOURCE_NOT_FOUND"
class_code conflict_error = "CONFLICT"
class_code authentication_error = "AUTHENTICATION_FAILED"
class_code permission_denied = "PERMISSION_DENIED"
class_code persistence_failure = "DATABASE_ERROR"
class_code database_unavailable = "DATABASE_UNAVAILABLE"
class_code user_already_exists = "USER_ALREADY_EXISTS"
class_code data_conflict = "DATA_CONFLICT"
class_code account_locked = "ACCOUNT_LOCKED"
class_code invalid_credentials = "INVALID_CREDENTIALS"
class_code email_verification_required = "EMAIL_VERIFICATION_REQUIRED"
class_code invalid_access_token = "INVALID_ACCESS_TOKEN"
class_code authentication_required = "AUTHENTICATION_REQUIRED"
class_code session_revoked = "SESSION_REVOKED"
class_code invalid_refresh_token = "INVALID_REFRESH_TOKEN"
class_code refresh_token_replay = "REFRESH_TOKEN_REPLAY"
class_code invalid_verification_code = "INVALID_VERIFICATION_CODE"
class_code feature_not_available = "FEATURE_NOT_AVAILABLE"
class_code session_management_disabled = "SESSION_MANAGEMENT_DISABLED"
class_code current_session_unavailable = "CURRENT_SESSION_UNAVAILABLE"
class_code session_not_found = "SESSION_NOT_FOUND"
class_code user_or_role_not_found = "USER_OR_ROLE_NOT_FOUND"
class_code user_not_found = "USER_NOT_FOUND"
class_code source_not_found = "SOURCE_NOT_FOUND"
class_code unsupported_source_kind = "UNSUPPORTED_SOURCE_KIND"
class_code ingestion_already_running = "INGESTION_ALREADY_RUNNING"
class_code run_not_found = "RUN_NOT_FOUND"
class_code job_not_found = "JOB_NOT_FOUND"
class_code match_not_found = "MATCH_NOT_FOUND"
class_code active_preference_not_found = "ACTIVE_PREFERENCES_NOT_FOUND"
class_code notification_delivery_not_found = "NOTIFICATION_DELIVERY_NOT_FOUND"
class_code invalid_user_identifier = "INVALID_USER_ID"

unfoldable pub class_message : ErrorClass → String
class_message app_error = "An application error occurred"
class_message bad_request_error = "The request could not be processed"
class_message invalid_input_error = "The request contains invalid data"
class_message not_found_error = "The requested resource was not found"
class_message conflict_error = "The request conflicts with the current state"
class_message authentication_error = "Authentication failed"
class_message permission_denied = "You do not have permission to perform this action"
class_message persistence_failure = "A database operation failed"
class_message database_unavailable = "The database is temporarily unavailable"
class_message user_already_exists = "A user with this email already exists"
class_message data_conflict = "A record with these values already exists"
class_message account_locked = "The account is temporarily locked"
class_message invalid_credentials = "Invalid credentials"
class_message email_verification_required = "Email verification is required"
class_message invalid_access_token = "Invalid authentication token"
class_message authentication_required = "Authentication is required"
class_message session_revoked = "The session is no longer active"
class_message invalid_refresh_token = "Invalid refresh token"
class_message refresh_token_replay = "Refresh token reuse was detected"
class_message invalid_verification_code = "The verification code is invalid or expired"
class_message feature_not_available = "This feature is not enabled"
class_message session_management_disabled = "Session management is disabled"
class_message current_session_unavailable = "The current session is unavailable"
class_message session_not_found = "The session was not found"
class_message user_or_role_not_found = "The user or role was not found"
class_message user_not_found = "The user was not found"
class_message source_not_found = "The source was not found"
class_message unsupported_source_kind = "The configured source type is not supported"
class_message ingestion_already_running = "An ingestion run is already in progress for this source"
class_message run_not_found = "The ingestion run was not found"
class_message job_not_found = "The job was not found"
class_message match_not_found = "The match was not found"
class_message active_preference_not_found = "No active preference profile was found"
class_message notification_delivery_not_found = "The notification delivery was not found"
class_message invalid_user_identifier = "X-User-ID must be a UUID"

-- The field, the place, the code and the message of one refused input.
pub record Detail : Type 0 where
  pub field : String
  pub location : String
  pub code : String
  pub message : String

pub record AppError : Type 0 where
  pub class : ErrorClass
  pub code : String
  pub message : String
  pub details : List Detail

-- `given or default` on texts: the empty text is falsy.
abbrev given_or : Option String → String → String
given_or none d = d
given_or (some s) d = if str_eq s "" then d else s

-- `AppError.__init__`
unfoldable pub app_error_init : ErrorClass → Option String → Option String → List Detail → AppError
unfolding class_code class_message
app_error_init c code message details = record {
  class = c;
  code = given_or code (class_code c);
  message = given_or message (class_message c);
  details = details;
}
