-- ===== src/Errors/Responses.antt =====
-- What a client learns of an exception.
use job_finder_agent.Common.{
  ℕ, ◌≤◌, ◌≡◌, ◌≢◌, ◌↔◌, ◌⊎◌, refl, Option, none, List, [], ◌∷◌, arith, String,
}
use job_finder_agent.Errors.Exceptions.{
  ErrorClass, app_error, authentication_required, invalid_access_token, session_revoked,
  app_error_init, class_code, class_message,
}
use job_finder_agent.Errors.Handlers.{
  app_error_handler, http_exception_handler, unexpected_error_handler,
}
use job_finder_agent.Errors.Classes.{status_for_app_error}

-- An application error that is raised with no code, message or details of its own is answered with
-- the status, the code and the message of its class; `AppError` itself is answered as an unexpected
-- error, which shows neither.
app_error_handler-app_error_init :
    (c : ErrorClass) (request_id : String)
    → c ≢ app_error
    → let r = app_error_handler request_id (app_error_init c none none []) in
      (r.status_code ≡ status_for_app_error c)
      × (r.content.code ≡ class_code c)
      × (r.content.message ≡ class_message c)
      × (r.content.request_id ≡ request_id)
unfolding app_error_handler app_error_init
app_error_handler-app_error_init app_error request_id h = absurd (h refl)
app_error_handler-app_error_init _ request_id h = (refl, refl, refl, refl)

-- The bearer challenge is sent with exactly three classes of error.
app_error_handler_challenge :
    (c : ErrorClass) (request_id : String)
    → ((app_error_handler request_id (app_error_init c none none [])).headers
        ≡ ("WWW-Authenticate", "Bearer") ∷ [])
      ↔ ((c ≡ authentication_required) ⊎ (c ≡ invalid_access_token) ⊎ (c ≡ session_revoked))
unfolding app_error_handler app_error_init
app_error_handler_challenge app_error request_id = ground arith
app_error_handler_challenge _ request_id = ground arith

-- From status 500 upwards the detail of an HTTP exception is not shown: the answer is the same for
-- every detail, and has the code and message of an unexpected error.
http_exception_handler_hides :
    (request_id : String) (n : ℕ) (d e : Option String) (headers : List (String × String))
    → 500 ≤ n
    → (http_exception_handler request_id n d headers
        ≡ http_exception_handler request_id n e headers)
      × ((http_exception_handler request_id n d headers).content
          ≡ (unexpected_error_handler request_id).content)
unfolding http_exception_handler unexpected_error_handler
http_exception_handler_hides request_id n d e headers h = ground arith
