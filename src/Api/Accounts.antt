-- ===== src/Api/Accounts.antt =====
-- api/v1/auth.py (app): registration, sign-in, the refresh of tokens, and one-time codes.
use job_finder_agent.Common.{none, List, [], ◌∷◌, String, or_default, if◌then◌else◌}
use job_finder_agent.Errors.Exceptions.{
  authentication_error, invalid_verification_code, user_already_exists,
}
use job_finder_agent.Errors.Classes.{is_instance}
use job_finder_agent.Session.{Action, ◌>>=◌, ◌>>◌, pure}
use job_finder_agent.Auth.Models.{User, Identity, email_verification, password_reset}
use job_finder_agent.Auth.Platform.{Platform, Settings}
use job_finder_agent.Auth.Repository.{roles}
use job_finder_agent.Auth.Service.{
  register, authenticate, issue_tokens, refresh, issue_code, reset_password, verify_email, Metadata,
}
use job_finder_agent.Api.Responses.{ClientRequest, SuccessResponse, success_response}
use job_finder_agent.Api.Audited.{
  reraising, record_audit, failure_entry, success_entry, success_entry_by,
}

pub record UserResponse : Type 0 where
  pub id : String
  pub email : String
  pub roles : List String

pub record TokenResponse : Type 0 where
  pub access_token : String
  pub refresh_token : String
  pub token_type : String

abbrev pub token_response : String → String → TokenResponse
token_response access refresh = record {
  access_token = access;
  refresh_token = refresh;
  token_type = "bearer";
}

abbrev pub metadata_of : ClientRequest → Metadata
metadata_of request = record {
  device_name = request.device_name;
  user_agent = request.user_agent;
  ip_address = request.ip_address;
}

abbrev pub reset_message : String
reset_message = "If the account exists, a reset code has been sent"

abbrev verification_message : String
verification_message = "If the account exists, a verification code has been sent"

module _ (P : Platform) (cfg : Settings) (request : ClientRequest) where
  unfoldable pub user_response : User → Action Identity UserResponse
  user_response u = do
    names ← roles u.id
    pure (record { id = P.uuid_text u.id; email = or_default u.email ""; roles = names })

  unfoldable pub register_endpoint :
      String → String → Action Identity (SuccessResponse UserResponse)
  unfolding user_response
  register_endpoint email password = do
    u ←
        reraising (λ c. is_instance c user_already_exists) (register P cfg email password)
          (λ c. record_audit P request (failure_entry "user.registration.failed" "user" c))
    code ←
        if cfg.auth_email_verification_enabled
        then issue_code P cfg email email_verification
        else pure none
    record_audit P request (success_entry_by P u.id "user.registered")
    response ← user_response u
    pure (success_response response request)

  -- What `login` tries: the user, and the tokens.
  unfoldable pub sign_in : String → String → Action Identity (User × String × String)
  sign_in email password = do
    u ← authenticate P cfg email password
    (access, token) ← issue_tokens P cfg u none (metadata_of request)
    pure (u, access, token)

  unfoldable pub login : String → String → Action Identity (SuccessResponse TokenResponse)
  unfolding sign_in
  login email password = do
    (u, access, token) ←
        reraising (λ c. is_instance c authentication_error) (sign_in email password)
          (λ c. record_audit P request (failure_entry "user.login.failed" "user" c))
    record_audit P request (success_entry_by P u.id "user.logged_in")
    pure (success_response (token_response access token) request)

  unfoldable pub refresh_endpoint : String → Action Identity (SuccessResponse TokenResponse)
  refresh_endpoint token = do
    tokens ←
        reraising (λ c. is_instance c authentication_error) (refresh P cfg token)
          (λ c.
            record_audit P request (failure_entry "auth.token.refresh_failed" "refresh_token" c))
    record_audit P request (success_entry "auth.token.refreshed" "refresh_token" [])
    pure (success_response (token_response tokens.0 tokens.1) request)

  unfoldable pub request_password_reset : String → Action Identity (SuccessResponse String)
  request_password_reset email = do
    code ←
        if cfg.auth_password_reset_enabled then issue_code P cfg email password_reset else pure none
    record_audit P request
        (success_entry "user.password_reset.requested" "user" (("email", P.lower email) ∷ []))
    pure (success_response reset_message request)

  unfoldable pub confirm_password_reset : String → String → String → Action Identity (Unit {0})
  confirm_password_reset email code password = do
    reraising (λ c. is_instance c invalid_verification_code)
        (reset_password P cfg email code password)
        (λ c. record_audit P request (failure_entry "user.password_reset.failed" "user" c))
    record_audit P request
        (success_entry "user.password_reset.completed" "user" (("email", P.lower email) ∷ []))

  unfoldable pub verify_email_endpoint : String → String → Action Identity (Unit {0})
  verify_email_endpoint email code = do
    reraising (λ c. is_instance c invalid_verification_code) (verify_email P cfg email code)
        (λ c. record_audit P request (failure_entry "user.email_verification.failed" "user" c))
    record_audit P request
        (success_entry "user.email_verified" "user" (("email", P.lower email) ∷ []))

  unfoldable pub resend_email_verification : String → Action Identity (SuccessResponse String)
  resend_email_verification email = do
    code ←
        if cfg.auth_email_verification_enabled
        then issue_code P cfg email email_verification
        else pure none
    pure (success_response verification_message request)
