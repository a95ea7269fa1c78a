-- ===== src/Sources/Listed.antt =====
-- A source that was created is listed, and only its user has it.
use job_finder_agent.Common.{
  ℕ, suc, ◌≡◌, inl, inr, refl, true, List, [], ◌∷◌, find, filter_by, add, ◌==◌, if◌then◌else◌,
  Bool-cases, Option-cases, arith, String,
}
use job_finder_agent.Database.{Records}
use job_finder_agent.Session.{
  Session, Action, Result, other, pure, ◌>>=◌, ok, raise, commit_session, flush_session,
  refresh_session, next_fault, later_faults,
}
use job_finder_agent.Ingestion.Jobs.{Source}
use job_finder_agent.Sources.{
  SourceInput, SourceResponse, is_acceptable, source_of, input_of, respond_source, respond_all,
  list_for_user, list_sources, create_row, create_source, with_user, with_source, blank_user,
}

module _ (uuid_text : ℕ → String) where
  -- What a listing answers, whatever the session.
  abbrev answer : ℕ → SourceInput → Result SourceResponse
  answer id given =
      if is_acceptable given
      then ok (record { id = uuid_text id; source = given })
      else raise (other "ValidationError")

  abbrev join_answers :
      Result SourceResponse → Result (List SourceResponse) → Result (List SourceResponse)
  join_answers (raise e) rest = raise e
  join_answers (ok r) (raise e) = raise e
  join_answers (ok r) (ok rs) = ok (r ∷ rs)

  abbrev answers : List Source → Result (List SourceResponse)
  answers [] = ok []
  answers (x ∷ xs) = join_answers (answer x.id (input_of x)) (answers xs)

  respond_source-answer :
      (id : ℕ) (given : SourceInput) (s : Session Records)
      → respond_source uuid_text id given s ≡ (answer id given, s)
  unfolding respond_source
  respond_source-answer id given s = elim (Bool-cases (is_acceptable given)) [
    | inl e ↦ rw e refl
    | inr e ↦ rw e refl
  ]

  bind_answers :
      (m : Action Records SourceResponse) (k : Action Records (List SourceResponse))
      (a : Result SourceResponse) (b : Result (List SourceResponse)) (s : Session Records)
      → m s ≡ (a, s)
      → k s ≡ (b, s)
      → (do response ← m; rest ← k; pure (response ∷ rest)) s ≡ (join_answers a b, s)
  bind_answers m k (ok r) (ok rs) s p q = ground (arith, p, q)
  bind_answers m k (ok r) (raise e) s p q = ground (arith, p, q)
  bind_answers m k (raise e) b s p q = ground (arith, p)

  respond_all-answers :
      (xs : List Source) (s : Session Records) → respond_all uuid_text xs s ≡ (answers xs, s)
  unfolding respond_all
  respond_all-answers [] s = refl
  respond_all-answers (x ∷ xs) s =
      bind_answers (respond_source uuid_text x.id (input_of x)) (respond_all uuid_text xs)
        (answer x.id (input_of x)) (answers xs) s (respond_source-answer x.id (input_of x) s)
        (respond_all-answers xs s)

  join_answers-ok :
      (a : Result SourceResponse) (b : Result (List SourceResponse)) (rs : List SourceResponse)
      → join_answers a b ≡ ok rs
      → (r : SourceResponse) × (qs : List SourceResponse) × (a ≡ ok r) × (b ≡ ok qs) × (rs ≡ r ∷ qs)
  join_answers-ok (raise e) b rs h = cc
  join_answers-ok (ok r) (raise e) rs h = cc
  join_answers-ok (ok r) (ok qs) rs h = (r, qs, refl, refl, cc)

  -- A source behind the others is answered behind them.
  answers-add :
      (xs : List Source) (x : Source) (r : SourceResponse) (rs : List SourceResponse)
      → answers xs ≡ ok rs
      → answer x.id (input_of x) ≡ ok r
      → answers (add x xs) ≡ ok (add r rs)
  answers-add [] x r rs h fine = rw fine (cc)
  answers-add (y ∷ xs) x r rs h fine =
      let (q, qs, first, rest, is) = join_answers-ok (answer y.id (input_of y)) (answers xs) rs h in
      rw (first, answers-add xs x r qs rest fine, is) refl

  list_sources-answers :
      (user_id : ℕ) (s : Session Records)
      → list_sources uuid_text user_id s
        ≡ (answers (filter_by (λ x. x.user_id == user_id) s.db.catalog.sources), s)
  unfolding list_sources list_for_user
  list_sources-answers user_id s =
      respond_all-answers (filter_by (λ x. x.user_id == user_id) s.db.catalog.sources) s

filter_by-add_source :
    (v user_id : ℕ) (xs : List Source) (x : Source)
    → x.user_id ≡ user_id
    → filter_by (λ x. x.user_id == v) (add x xs) ≡ (
        if v == user_id
        then add x (filter_by (λ x. x.user_id == v) xs)
        else filter_by (λ x. x.user_id == v) xs)
filter_by-add_source v user_id [] x is = ground arith
filter_by-add_source v user_id (y ∷ xs) x is =
    ground (arith, filter_by-add_source v user_id xs x is)

module _ (uuid4 : ℕ → ℕ) (user_id : ℕ) (given : SourceInput) (s : Session Records) where
  -- The session that a creation leaves while the database works.
  abbrev left : Records → Session Records
  left d = record {
    db = with_source (source_of (uuid4 s.ticks) user_id given) d;
    saved = with_source (source_of (uuid4 s.ticks) user_id given) d;
    faults = [];
    ticks = suc s.ticks;
  }

  create_row-left :
      s.faults ≡ []
      → (d : Records) × (d.catalog.sources ≡ s.db.catalog.sources)
        × (create_row uuid4 user_id given s
            ≡ (ok (source_of (uuid4 s.ticks) user_id given), left d))
  unfolding create_row commit_session refresh_session flush_session next_fault later_faults
  create_row-left quiet = elim (Option-cases (find (λ u. u.id == user_id) s.db.identity.users)) [
    | inl e ↦ (with_user (blank_user user_id) s.db, refl, ground (arith, e, quiet))
    | inr (u, e) ↦ (s.db, refl, ground (arith, e, quiet))
  ]

  module _ (uuid_text : ℕ → String) where
    abbrev pub created : SourceResponse
    created = record { id = uuid_text (uuid4 s.ticks); source = given }

    create_source-left :
        (d : Records)
        → create_row uuid4 user_id given s ≡ (ok (source_of (uuid4 s.ticks) user_id given), left d)
        → is_acceptable given ≡ true
        → create_source uuid_text uuid4 user_id given s ≡ (ok created, left d)
    unfolding create_source
    create_source-left d e fine =
        ground (arith, e, respond_source-answer uuid_text (uuid4 s.ticks) given (left d))

    answers_left :
        (before : List SourceResponse) (v : ℕ)
        → is_acceptable given ≡ true
        → answers uuid_text (filter_by (λ x. x.user_id == user_id) s.db.catalog.sources) ≡ ok before
        → answers uuid_text (
            filter_by
              (λ x. x.user_id == v)
              (add (source_of (uuid4 s.ticks) user_id given) s.db.catalog.sources))
          ≡ (if v == user_id
              then ok (add created before)
              else answers uuid_text (filter_by (λ x. x.user_id == v) s.db.catalog.sources))
    answers_left before v fine listed =
        let new = source_of (uuid4 s.ticks) user_id given in
        let xs = s.db.catalog.sources in
        rw (filter_by-add_source v user_id xs new refl) (elim (Bool-cases (v == user_id)) [
          | inl own ↦
              let same : v ≡ user_id = ground arith in
              rw (own, same)
                (answers-add uuid_text (filter_by (λ x. x.user_id == user_id) xs) new created before
                  listed (rw fine refl))
          | inr apart ↦ rw apart refl
        ])

    -- While the database works, a source of acceptable fields is created with these fields, and what
    -- is saved lists it behind the sources that its user had, while every other user's list is as it
    -- was. The user's sources must be ones that can be listed.
    pub create_source-list_sources :
        (before : List SourceResponse) (v : ℕ)
        → s.faults ≡ []
        → is_acceptable given ≡ true
        → (list_sources uuid_text user_id s).0 ≡ ok before
        → let (r, s') = create_source uuid_text uuid4 user_id given s in
          (r ≡ ok created)
          × ((list_sources uuid_text v (record s' { db = s'.saved })).0
              ≡ (if v == user_id then ok (add created before) else (list_sources uuid_text v s).0))
    create_source-list_sources before v quiet fine listed =
        let (d, kept, e) = create_row-left quiet in
        rw (create_source-left d e fine) (
          refl,
          rw
              (
                list_sources-answers uuid_text v (record {
                  db = (left d).saved;
                  saved = (left d).saved;
                  faults = [];
                  ticks = suc s.ticks;
                }),
                kept,
                list_sources-answers uuid_text v s,
              )
              (answers_left before v fine
                (rw (list_sources-answers uuid_text user_id s) at listed)),
        )
