-- ===== src/Errors/Classes.antt =====
-- `isinstance` on the error classes, and the table of status codes of errors/handlers.py (app).
use mathlib.Core.Logic.{ite}
use job_finder_agent.Common.{
  ℕ, zero, suc, Bool, true, false, none, some, List, [], ◌∷◌, any, if◌then◌else◌,
}
use job_finder_agent.Errors.Exceptions.{
  ErrorClass, base, database_unavailable, invalid_input_error, bad_request_error, not_found_error,
  conflict_error, authentication_error, permission_denied, persistence_failure,
}

ErrorClass-discrete : Discrete ErrorClass
ErrorClass-discrete = hlevel

-- Python looks along the whole chain of bases, whose length is at most `depth`: `depth` steps up
-- from any class lie outside the hierarchy.
abbrev pub depth : ℕ
depth = 4

unfoldable pub is_subclass_within : ℕ → ErrorClass → ErrorClass → Bool
unfolding ErrorClass-discrete
is_subclass_within zero c d = false
is_subclass_within (suc n) c d =
    ite (ErrorClass-discrete c d) true
      (elim (base c) [ none ↦ false | some b ↦ is_subclass_within n b d ])

-- `isinstance(error, d)` for an error of class `c`.
unfoldable pub is_instance : ErrorClass → ErrorClass → Bool
unfolding is_subclass_within base
is_instance = is_subclass_within depth

-- `ERROR_STATUS_CODES`
abbrev error_status_codes : List (ErrorClass × ℕ)
error_status_codes =
    (database_unavailable, 503)
    ∷ (invalid_input_error, 422)
    ∷ (bad_request_error, 400)
    ∷ (not_found_error, 404)
    ∷ (conflict_error, 409)
    ∷ (authentication_error, 401)
    ∷ (permission_denied, 403)
    ∷ (persistence_failure, 500)
    ∷ []

unfoldable status_in : List (ErrorClass × ℕ) → ErrorClass → ℕ
unfolding is_instance
status_in [] c = 500
status_in ((d, status) ∷ table) c = if is_instance c d then status else status_in table c

unfoldable pub status_for_app_error : ErrorClass → ℕ
unfolding status_in
status_for_app_error = status_in error_status_codes

unfoldable pub is_mapped_app_error : ErrorClass → Bool
unfolding is_instance
is_mapped_app_error c = any (λ e. is_instance c e.0) error_status_codes
