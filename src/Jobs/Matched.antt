-- ===== src/Jobs/Matched.antt =====
-- A match that is made is the one that is shown (domain/matching/service.py and
-- domain/jobs/query_service.py of app).
use job_finder_agent.Common.{
  ℕ, ◌≡◌, refl, sym, subst, ◌∙◌, ap, Bool, true, some, List, [], ◌∷◌, ◌++◌, arith, All, add, find,
  find-satisfies, filter_by, order_by, ◌==◌, ◌<◌, Texts, Option-cases, Bool-cases, inl, inr,
}
use job_finder_agent.Session.{
  Session, ok, Result-cases, commit_session, refresh_session, flush_session,
}
use job_finder_agent.Preferences.Schemas.{PreferenceInput, validate}
use job_finder_agent.Preferences.Store.{Profile, Profiles, get_active, one_or_none}
use job_finder_agent.Ingestion.Jobs.{Job, MatchResult, Catalog, Outside}
use job_finder_agent.Jobs.Query.{is_later, first, latest, latest_match, get_job}
use job_finder_agent.Jobs.Match.{Desk, job_by_id, create_match, evaluate, match_job, match_of}

-- Every match is from before the moment.
abbrev Before : ℕ → List MatchResult → Type 0
Before now = All (λ m. m.created_at < now)

order_by-add :
    (ms : List MatchResult) (new : MatchResult)
    → Before new.created_at ms
    → order_by is_later (add new ms) ≡ new ∷ order_by is_later ms
order_by-add [] new h = refl
order_by-add (m ∷ ms) new h = rw (order_by-add ms new h.1) (ground (arith, h.0))

filter_by-Before :
    (now : ℕ) (p : MatchResult → Bool) (ms : List MatchResult)
    → Before now ms
    → Before now (filter_by p ms)
filter_by-Before now p [] h = tt
filter_by-Before now p (m ∷ ms) h = elim (Bool-cases (p m)) [
  | inl e ↦ rw e (h.0, filter_by-Before now p ms h.1)
  | inr e ↦ rw e (filter_by-Before now p ms h.1)
]

filter_by-add :
    (p : MatchResult → Bool) (ms : List MatchResult) (new : MatchResult)
    → p new ≡ true
    → filter_by p (add new ms) ≡ add new (filter_by p ms)
filter_by-add p [] new h = rw h
filter_by-add p (m ∷ ms) new h = ground (arith, h, filter_by-add p ms new h)

latest_added :
    (job_id : ℕ) (m : MatchResult) (ms : List MatchResult)
    → (m.job_id == job_id) ≡ true
    → Before m.created_at ms
    → first (order_by is_later (filter_by (λ n. n.job_id == job_id) (add m ms))) ≡ some m
latest_added job_id m ms same before = rw (
  filter_by-add (λ n. n.job_id == job_id) ms m same,
  order_by-add (filter_by (λ n. n.job_id == job_id) ms) m
      (filter_by-Before m.created_at (λ n. n.job_id == job_id) ms before),
)

one_or_none-same : (ps : List Profile) (s : Session Profiles) → (one_or_none ps s).1 ≡ s
unfolding one_or_none
one_or_none-same [] s = refl
one_or_none-same (p ∷ []) s = refl
one_or_none-same (p ∷ q ∷ ps) s = refl

get_active-same : (user_id : ℕ) (s : Session Profiles) → (get_active user_id s).1 ≡ s
unfolding get_active
get_active-same user_id s = one_or_none-same _ s

-- The preferences of the desk, as a session of their own.
abbrev profiles_of : Session Desk → Session Profiles
profiles_of s = record {
  db = s.db.preferences;
  saved = s.saved.preferences;
  faults = s.faults;
  ticks = s.ticks;
}

module _ (T : Texts) (scaled : ℕ → ℕ → ℕ) (O : Outside) where
  -- What a match is made of.
  abbrev pub IsMadeFrom : ℕ → ℕ → Session Desk → MatchResult → Type 0
  IsMadeFrom job_id user_id s m =
      (job : Job) × (profile : Profile) × (preferences : PreferenceInput) × (find
          (λ j. j.id == job_id) s.db.catalog.jobs
        ≡ some job)
      × ((get_active user_id (profiles_of s)).0 ≡ ok (some profile))
      × (validate T profile.config ≡ some preferences)
      × (m ≡ match_of T scaled O (O.uuid4 s.ticks) (O.now s.ticks) job profile preferences)

  evaluate-inv :
      (job : Job) (profile : Profile) (s : Session Desk) (m : MatchResult)
      → (evaluate T scaled O job profile s).0 ≡ ok m
      → (preferences : PreferenceInput) × (validate T profile.config ≡ some preferences)
        × (m ≡ match_of T scaled O (O.uuid4 s.ticks) (O.now s.ticks) job profile preferences)
        × ((evaluate T scaled O job profile s).1.saved.catalog.matches ≡ add m s.db.catalog.matches)
  unfolding evaluate create_match commit_session refresh_session flush_session
  evaluate-inv job profile s m h = elim (Option-cases (validate T profile.config)) [
    | inl e ↦ ground (arith, e)
    | inr (preferences, e) ↦ (preferences, e, ground (arith, e), ground (arith, e))
  ]

  match_job-evaluate :
      (job_id user_id : ℕ) (s : Session Desk) (job : Job) (profile : Profile)
      → find (λ j. j.id == job_id) s.db.catalog.jobs ≡ some job
      → (get_active user_id (profiles_of s)).0 ≡ ok (some profile)
      → match_job T scaled O job_id user_id s ≡ evaluate T scaled O job profile s
  unfolding match_job job_by_id
  match_job-evaluate job_id user_id s job profile e k =
      ground (arith, e, k, get_active-same user_id (profiles_of s))

  match_job-inv :
      (job_id user_id : ℕ) (s : Session Desk) (m : MatchResult)
      → (match_job T scaled O job_id user_id s).0 ≡ ok m
      → IsMadeFrom job_id user_id s m
        × ((match_job T scaled O job_id user_id s).1.saved.catalog.matches
            ≡ add m s.db.catalog.matches)
  unfolding match_job job_by_id
  match_job-inv job_id user_id s m h =
      elim (Option-cases (find (λ j. j.id == job_id) s.db.catalog.jobs)) [
        | inl e ↦ ground (arith, e)
        | inr (job, e) ↦ elim (Result-cases (get_active user_id (profiles_of s)).0) [
          | inr (x, k) ↦ ground (arith, e, k)
          | inl (active, k) ↦ elim (Option-cases active) [
            | inl missing ↦ ground (arith, e, k, missing)
            | inr (profile, chosen) ↦
                let found = k ∙ ap (λ a. ok a) chosen in
                let same = match_job-evaluate job_id user_id s job profile e found in
                let (preferences, valid, made, stored) =
                  evaluate-inv job profile s m (rw same at h) in
                ((job, profile, preferences, e, found, valid, made), rw same stored)
          ]
        ]
      ]

  -- A match that is made is saved behind the others, which stay, and it is what the rules say of the job and of
  -- the user's active preferences. Once it is saved it is the job's latest match, if every other one
  -- is from before, and it is what every user is shown who sees the job, whoever made it.
  pub match_job-latest_match :
      (job_id user_id viewer : ℕ) (s : Session Desk) (m : MatchResult) (later : Session Catalog)
      → (match_job T scaled O job_id user_id s).0 ≡ ok m
      → Before (O.now s.ticks) s.db.catalog.matches
      → later.db ≡ (match_job T scaled O job_id user_id s).1.saved.catalog
      → (seen : (job : Job) × ((get_job viewer job_id later).0 ≡ ok (some job)))
      → IsMadeFrom job_id user_id s m
        × (later.db.matches ≡ s.db.catalog.matches ++ (m ∷ []))
        × ((latest_match viewer job_id later).0 ≡ ok m)
  unfolding latest_match latest get_job
  match_job-latest_match job_id user_id viewer s m later h before left (job, seen) =
      let (made, stored) = match_job-inv job_id user_id s m h in
      let (job', profile, preferences, found, active, valid, is_made) = made in
      let id : (m.job_id == job_id) ≡ true =
        rw is_made (find-satisfies (λ j. j.id == job_id) s.db.catalog.jobs found) in
      let moment : m.created_at ≡ O.now s.ticks = rw is_made in
      let kept : later.db.matches ≡ add m s.db.catalog.matches =
        ap (λ d. d.matches) left ∙ stored in
      (
        made,
        kept,
        ground (
          arith,
          seen,
          kept,
          latest_added job_id m s.db.catalog.matches id
              (subst (λ now. Before now s.db.catalog.matches) (sym moment) before),
        ),
      )
