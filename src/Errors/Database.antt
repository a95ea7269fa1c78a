-- ===== src/Errors/Database.antt =====
-- errors/database.py (app): the translation of a database exception.
use job_finder_agent.Common.{
  Bool, true, false, ◌&&◌, ◌||◌, Option, none, some, if◌then◌else◌, String, str_eq, contains,
  starts_with,
}
use job_finder_agent.Errors.Exceptions.{
  ErrorClass, user_already_exists, data_conflict, database_unavailable, persistence_failure,
}

-- The classes of SQLAlchemy that the code tells apart. An IntegrityError is a DBAPIError.
pub data Kind : Type 0 where
  integrity_error dbapi_error other_error : Kind

-- An SQLAlchemyError with what the code reads of it, the texts in lower case where the code takes
-- them so: the constraint's name and the SQLSTATE of `error.orig`, and `str(error.orig)`.
pub record DatabaseError : Type 0 where
  pub kind : Kind
  pub constraint_name : Option String
  pub original_message : String
  pub sqlstate : Option String
  pub connection_invalidated : Bool

abbrev is_integrity_error : Kind → Bool
is_integrity_error integrity_error = true
is_integrity_error _ = false

abbrev is_dbapi_error : Kind → Bool
is_dbapi_error other_error = false
is_dbapi_error _ = true

-- `constraint and "user" in constraint and "email" in constraint`; the empty text, which is falsy,
-- holds neither word.
abbrev names_user_email : Option String → Bool
names_user_email none = false
names_user_email (some s) = contains "user" s && contains "email" s

abbrev is_sqlstate : String → Option String → Bool
is_sqlstate code none = false
is_sqlstate code (some s) = str_eq s code

abbrev pub is_connection_state : Option String → Bool
is_connection_state none = false
is_connection_state (some s) = starts_with s "08"

-- The last two tests of `translate_database_error`.
unfoldable translate_dbapi : DatabaseError → ErrorClass
translate_dbapi e =
    if is_dbapi_error e.kind && (e.connection_invalidated || is_connection_state e.sqlstate)
    then database_unavailable
    else persistence_failure

unfoldable pub translate_database_error : DatabaseError → ErrorClass
unfolding translate_dbapi
translate_database_error e =
    if is_integrity_error e.kind
    then if names_user_email e.constraint_name || contains "users.email" e.original_message
      then user_already_exists
      else if is_sqlstate "23505" e.sqlstate
          || contains "unique constraint failed" e.original_message
      then data_conflict
      else translate_dbapi e
    else translate_dbapi e
