-- ===== src/Jobs/Isolation.antt =====
-- What other users' sources bring does not show (repositories/job_query.py of app).
use job_finder_agent.Common.{ℕ, ◌≡◌, refl, Bool, false, List, [], ◌∷◌, ◌++◌, arith, All, any}
use job_finder_agent.Session.{Session}
use job_finder_agent.Ingestion.Jobs.{JobSourceRecord, Catalog}
use job_finder_agent.Jobs.Query.{is_from}

any-false : {A : Type 0} (p : A → Bool) (xs : List A) → All (λ x. p x ≡ false) xs → any p xs ≡ false
any-false p [] h = refl
any-false p (x ∷ xs) h = ground (arith, h.0, any-false p xs h.1)

module _ (user_id : ℕ) (s : Session Catalog) (records : List JobSourceRecord) where
  -- The records come from sources of others.
  abbrev pub Foreign : Type 0
  Foreign = All (λ r. is_from user_id s.db.sources r ≡ false) records

  -- The session with the records.
  abbrev pub joined_by : Session Catalog
  joined_by = record s { db = record s.db { records = s.db.records ++ records } }
