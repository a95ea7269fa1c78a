-- ===== src/Session.antt =====
-- db.py and errors/database.py (app): a database session as a state with exceptions.
-- `db` is what the session's own queries see, pending changes included; `saved` is what is
-- committed, which is all that outlives the session. `faults` says what becomes of the coming
-- calls of commit, flush and refresh, first to last: `some e` is a failure with `e`, `none` and
-- the end of the list are success. `ticks` numbers the values that are drawn from outside the
-- program: the clock, random identifiers and random texts are functions of it.
pub mod Rules
pub mod Pages
use job_finder_agent.Common.{
  ℕ, suc, ◌≡◌, ◌⊎◌, refl, Bool, true, false, Option, none, some, List, [], ◌∷◌, arith, inl, inr,
  String, Option-cases,
}
use job_finder_agent.Errors.Exceptions.{ErrorClass}
use job_finder_agent.Errors.Database.{DatabaseError, translate_database_error}

-- An application error, or any other exception, by its message.
pub data Exception : Type 0 where
  app : ErrorClass → Exception
  other : String → Exception

pub data Result {ℓ} (A : Type ℓ) : Type ℓ where
  ok : A → Result A
  raise : Exception → Result A

pub Result-cases :
    {A : Type 0} (r : Result A) → ((a : A) × (r ≡ ok a)) ⊎ ((e : Exception) × (r ≡ raise e))
Result-cases (ok a) = inl (a, refl)
Result-cases (raise e) = inr (e, refl)

pub record Session (D : Type 0) : Type 0 where
  pub db : D
  pub saved : D
  pub faults : List (Option DatabaseError)
  pub ticks : ℕ

abbrev pub Action : Type 0 → Type 0 → Type 0
Action D A = Session D → Result A × Session D

-- The failure that waits for the next call, and what waits for those after it.
unfoldable pub next_fault : List (Option DatabaseError) → Option DatabaseError
next_fault [] = none
next_fault (f ∷ fs) = f

unfoldable pub later_faults : List (Option DatabaseError) → List (Option DatabaseError)
later_faults [] = []
later_faults (f ∷ fs) = fs

module _ {D : Type 0} where
  infixl 5 ◌>>=◌ ◌>>◌
  abbrev pub ◌>>=◌ : {A B : Type 0} → Action D A → (A → Action D B) → Action D B
  ◌>>=◌ m f s = let (r, s') = m s in elim r [ ok a ↦ f a s' | raise e ↦ (raise e, s') ]

  abbrev pub ◌>>◌ : {B : Type 0} → Action D (Unit {0}) → Action D B → Action D B
  m >> k = m >>= λ _. k

  abbrev pub pure : {A : Type 0} → A → Action D A
  pure a s = (ok a, s)

  abbrev pub fail : {A : Type 0} → ErrorClass → Action D A
  fail c s = (raise (app c), s)

  -- A query, and a change that stays pending.
  abbrev pub query : {A : Type 0} → (D → A) → Action D A
  query f s = (ok (f s.db), s)

  abbrev pub modify : (D → D) → Action D (Unit {0})
  modify f s = (ok tt, record s { db = f s.db })

  -- A value from outside.
  abbrev pub draw : {A : Type 0} → (ℕ → A) → Action D A
  draw f s = (ok (f s.ticks), record s { ticks = suc s.ticks })

  -- `raise_database_error`: the pending changes are rolled back, and the exception is translated.
  abbrev pub raise_database_error : {A : Type 0} → DatabaseError → Action D A
  raise_database_error e s = (raise (app (translate_database_error e)), record s { db = s.saved })

  -- `commit_session`
  unfoldable pub commit_session : Action D (Unit {0})
  commit_session s =
      let s' : Session D = record s { faults = later_faults s.faults } in
      elim (next_fault s.faults) [
        | none ↦ (ok tt, record s' { saved = s.db })
        | some e ↦ raise_database_error e s'
      ]

  -- `flush_session` and `refresh_session` write nothing that `db` does not already hold.
  unfoldable pub flush_session : Action D (Unit {0})
  flush_session s =
      let s' : Session D = record s { faults = later_faults s.faults } in
      elim (next_fault s.faults) [ none ↦ (ok tt, s') | some e ↦ raise_database_error e s' ]

  unfoldable pub refresh_session : Action D (Unit {0})
  unfolding flush_session
  refresh_session = flush_session

  -- Nothing is pending.
  abbrev pub IsClean : Session D → Type 0
  IsClean s = s.db ≡ s.saved

  -- A commit saves all that is pending or loses all of it: it is never half done, and nothing is
  -- left pending.
  pub commit_session_atomic :
      (s : Session D)
      → let (r, s') = commit_session s in
        IsClean s'
        × ((r ≡ ok tt) × (s'.saved ≡ s.db)
            ⊎ (e : ErrorClass) × (r ≡ raise (app e)) × (s'.saved ≡ s.saved))
  unfolding commit_session
  commit_session_atomic s = elim (Option-cases (next_fault s.faults)) [
    | inl works ↦ rw (works, commit_session) (refl, inl (refl, refl))
    | inr (e, fails) ↦
        rw (fails, commit_session) (refl, inr (translate_database_error e, refl, refl))
  ]
