-- ===== src/Errors/Status.antt =====
-- What the status table gives to each class.
use job_finder_agent.Common.{ℕ, suc, ◌≡◌, ◌≢◌, ◌↔◌, refl, false, some, arith}
use job_finder_agent.Errors.Exceptions.{ErrorClass, base, app_error, database_unavailable}
use job_finder_agent.Errors.Classes.{
  is_subclass_within, is_instance, status_for_app_error, is_mapped_app_error,
}

-- A class has the status of its base class, unless the base is `AppError`, which the table does
-- not name, or the class is `DatabaseUnavailable`, which has a row of its own.
status_for_app_error-base :
    (c b : ErrorClass)
    → base c ≡ some b
    → b ≢ app_error
    → c ≢ database_unavailable
    → status_for_app_error c ≡ status_for_app_error b
unfolding status_for_app_error base
status_for_app_error-base app_error b h n m = ground arith
status_for_app_error-base _ b h n m = ground arith

-- The table names every class but `AppError` itself.
is_mapped_app_error_iff : (c : ErrorClass) → (is_mapped_app_error c ≡ false) ↔ (c ≡ app_error)
unfolding is_mapped_app_error
is_mapped_app_error_iff app_error = ground arith
is_mapped_app_error_iff _ = ground arith

-- The chain of bases ends within `depth` steps: a search of four or more steps finds what
-- `is_instance` finds.
is_subclass_within_enough :
    (n : ℕ) (c d : ErrorClass) → is_subclass_within (suc (suc (suc (suc n)))) c d ≡ is_instance c d
unfolding is_instance is_subclass_within base
is_subclass_within_enough n app_error d = refl
is_subclass_within_enough n _ d = refl
