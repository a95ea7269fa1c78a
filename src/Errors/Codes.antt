-- ===== src/Errors/Codes.antt =====
-- The codes of the classes, read back.
use job_finder_agent.Common.{◌≡◌, refl, Option, none, some, if◌then◌else◌, String, str_eq, ap}
use job_finder_agent.Errors.Exceptions.{ErrorClass, class_code, app_error}

-- The class that has the code.
class_of_code : String → Option ErrorClass
class_of_code s =
    if str_eq s "APPLICATION_ERROR"
    then some ErrorClass.app_error
    else if str_eq s "BAD_REQUEST"
    then some ErrorClass.bad_request_error
    else if str_eq s "INVALID_INPUT"
    then some ErrorClass.invalid_input_error
    else if str_eq s "RESOURCE_NOT_FOUND"
    then some ErrorClass.not_found_error
    else if str_eq s "CONFLICT"
    then some ErrorClass.conflict_error
    else if str_eq s "AUTHENTICATION_FAILED"
    then some ErrorClass.authentication_error
    else if str_eq s "PERMISSION_DENIED"
    then some ErrorClass.permission_denied
    else if str_eq s "DATABASE_ERROR"
    then some ErrorClass.persistence_failure
    else if str_eq s "DATABASE_UNAVAILABLE"
    then some ErrorClass.database_unavailable
    else if str_eq s "USER_ALREADY_EXISTS"
    then some ErrorClass.user_already_exists
    else if str_eq s "DATA_CONFLICT"
    then some ErrorClass.data_conflict
    else if str_eq s "ACCOUNT_LOCKED"
    then some ErrorClass.account_locked
    else if str_eq s "INVALID_CREDENTIALS"
    then some ErrorClass.invalid_credentials
    else if str_eq s "EMAIL_VERIFICATION_REQUIRED"
    then some ErrorClass.email_verification_required
    else if str_eq s "INVALID_ACCESS_TOKEN"
    then some ErrorClass.invalid_access_token
    else if str_eq s "AUTHENTICATION_REQUIRED"
    then some ErrorClass.authentication_required
    else if str_eq s "SESSION_REVOKED"
    then some ErrorClass.session_revoked
    else if str_eq s "INVALID_REFRESH_TOKEN"
    then some ErrorClass.invalid_refresh_token
    else if str_eq s "REFRESH_TOKEN_REPLAY"
    then some ErrorClass.refresh_token_replay
    else if str_eq s "INVALID_VERIFICATION_CODE"
    then some ErrorClass.invalid_verification_code
    else if str_eq s "FEATURE_NOT_AVAILABLE"
    then some ErrorClass.feature_not_available
    else if str_eq s "SESSION_MANAGEMENT_DISABLED"
    then some ErrorClass.session_management_disabled
    else if str_eq s "CURRENT_SESSION_UNAVAILABLE"
    then some ErrorClass.current_session_unavailable
    else if str_eq s "SESSION_NOT_FOUND"
    then some ErrorClass.session_not_found
    else if str_eq s "USER_OR_ROLE_NOT_FOUND"
    then some ErrorClass.user_or_role_not_found
    else if str_eq s "USER_NOT_FOUND"
    then some ErrorClass.user_not_found
    else if str_eq s "SOURCE_NOT_FOUND"
    then some ErrorClass.source_not_found
    else if str_eq s "UNSUPPORTED_SOURCE_KIND"
    then some ErrorClass.unsupported_source_kind
    else if str_eq s "INGESTION_ALREADY_RUNNING"
    then some ErrorClass.ingestion_already_running
    else if str_eq s "RUN_NOT_FOUND"
    then some ErrorClass.run_not_found
    else if str_eq s "JOB_NOT_FOUND"
    then some ErrorClass.job_not_found
    else if str_eq s "MATCH_NOT_FOUND"
    then some ErrorClass.match_not_found
    else if str_eq s "ACTIVE_PREFERENCES_NOT_FOUND"
    then some ErrorClass.active_preference_not_found
    else if str_eq s "NOTIFICATION_DELIVERY_NOT_FOUND"
    then some ErrorClass.notification_delivery_not_found
    else if str_eq s "INVALID_USER_ID"
    then some ErrorClass.invalid_user_identifier
    else none

class_of_code-class_code : (c : ErrorClass) → class_of_code (class_code c) ≡ some c
unfolding class_of_code class_code
class_of_code-class_code app_error = refl
class_of_code-class_code _ = refl

-- The code of an error tells its class: no two classes have the same code.
class_code_injective : (c d : ErrorClass) → class_code c ≡ class_code d → c ≡ d
class_code_injective c d h =
    cc (class_of_code-class_code c, class_of_code-class_code d, ap class_of_code h)
