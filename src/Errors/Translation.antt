-- ===== src/Errors/Translation.antt =====
-- The classes that a database exception is translated to.
use job_finder_agent.Common.{◌≡◌, ◌≢◌, ◌⊎◌, true, ◌||◌, arith}
use job_finder_agent.Errors.Exceptions.{database_unavailable}
use job_finder_agent.Errors.Database.{
  DatabaseError, integrity_error, dbapi_error, other_error, is_connection_state,
  translate_database_error,
}
use job_finder_agent.Errors.Classes.{status_for_app_error}

-- Whatever the exception, the answer is one of four classes, with the status 409, 503 or 500; a
-- conflict (409) is answered for violated integrity only, and an exception that is none of the
-- driver's is answered with 500.
translate_database_error_status :
    (e : DatabaseError)
    → let s = status_for_app_error (translate_database_error e) in
      ((s ≡ 409) × (e.kind ≡ integrity_error) ⊎ (s ≡ 503) × (e.kind ≢ other_error) ⊎ (s ≡ 500))
      × (e.kind ≡ other_error → s ≡ 500)
unfolding translate_database_error status_for_app_error
translate_database_error_status e = ground arith

-- A lost connection is answered as retryable unavailability: for an exception of the driver that
-- is no violated integrity, and whose connection was invalidated or whose SQLSTATE is of class 08,
-- the class is `DatabaseUnavailable`.
translate_database_error_lost_connection :
    (e : DatabaseError)
    → e.kind ≡ dbapi_error
    → (e.connection_invalidated || is_connection_state e.sqlstate) ≡ true
    → translate_database_error e ≡ database_unavailable
unfolding translate_database_error
translate_database_error_lost_connection e k h = ground arith
