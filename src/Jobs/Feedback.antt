-- ===== src/Jobs/Feedback.antt =====
-- What a user said of a job: the table of feedback as a map (domain/jobs/query_service.py of app).
use job_finder_agent.Common.{
  ℕ, ◌≡◌, ◌⊎◌, refl, ap, inl, inr, Bool, true, false, ◌&&◌, Option, none, some, List, String, arith,
  ◌==◌, find, find-All, find-add, find-update_where, find-satisfies, update_where, add, All,
  Option-cases, Bool-cases, if◌then◌else◌,
}
use job_finder_agent.Errors.Exceptions.{job_not_found}
use job_finder_agent.Session.{
  Session, Result, ok, raise, app, commit_session, refresh_session, flush_session, next_fault,
}
use job_finder_agent.Ingestion.Jobs.{Job, JobFeedback, Catalog, Outside}
use job_finder_agent.Jobs.Query.{
  FeedbackInput, is_visible, is_opinion, get_job, feedback_of, save_feedback, set_opinion,
  give_feedback,
}

-- The label and the note that a user gave to a job.
abbrev said : Option JobFeedback → Option (String × Option String)
said none = none
said (some f) = some (f.label, f.note)

abbrev pub opinion : ℕ → ℕ → Catalog → Option (String × Option String)
opinion user_id job_id d = said (find (is_opinion user_id job_id) d.feedback)

-- Rows with one id have one key.
abbrev DistinctIds : List JobFeedback → Type 0
DistinctIds fs =
    All (λ f. All (λ g. (g.id == f.id) ≡ true → is_opinion f.user_id f.job_id g ≡ true) fs) fs

-- The map, with one key set.
abbrev pub IsUpdated : ℕ → ℕ → FeedbackInput → Catalog → Catalog → Type 0
IsUpdated user_id job_id given d d' =
    (u j : ℕ)
    → opinion u j d'
      ≡ (if u == user_id && j == job_id then some (given.label, given.note) else opinion u j d)

module _ (user_id job_id : ℕ) (given : FeedbackInput) (d : Catalog) where
  abbrev changed : JobFeedback → Catalog
  changed f = record d {
    feedback = update_where (λ g. g.id == f.id) (set_opinion given) d.feedback;
  }

  changed-IsUpdated :
      (f : JobFeedback)
      → DistinctIds d.feedback
      → find (is_opinion user_id job_id) d.feedback ≡ some f
      → IsUpdated user_id job_id given d (changed f)
  changed-IsUpdated f distinct found u j =
      let key = find-satisfies (is_opinion user_id job_id) d.feedback found in
      let row =
        find-update_where (is_opinion u j) (λ g. g.id == f.id) (set_opinion given) d.feedback
          (λ x. refl) in
      elim (Bool-cases (u == user_id && j == job_id)) [
        | inl e ↦
            let same_user : u ≡ user_id = ground (arith, e) in
            let same_job : j ≡ job_id = ground (arith, e) in
            rw (row, same_user, same_job, found) (ground arith)
        | inr e ↦ elim (Option-cases (find (is_opinion u j) d.feedback)) [
          | inl missing ↦ rw (row, missing, e)
          | inr (x, there) ↦
              let own = find-satisfies (is_opinion u j) d.feedback there in
              let like_f =
                find-All
                  (λ g.
                    All (λ h. (h.id == g.id) ≡ true → is_opinion g.user_id g.job_id h ≡ true)
                      d.feedback)
                  (is_opinion user_id job_id) d.feedback f distinct found in
              let like_x =
                find-All (λ h. (h.id == f.id) ≡ true → is_opinion f.user_id f.job_id h ≡ true)
                  (is_opinion u j) d.feedback x like_f there in
              rw (row, there, e) (ground (arith, own, key, like_x, e))
        ]
      ]

  abbrev added : ℕ → Catalog
  added id = record d {
    feedback =
        add
          (record {
            id = id;
            user_id = user_id;
            job_id = job_id;
            label = given.label;
            note = given.note;
          })
          d.feedback;
  }

  added-IsUpdated :
      (id : ℕ)
      → find (is_opinion user_id job_id) d.feedback ≡ none
      → IsUpdated user_id job_id given d (added id)
  added-IsUpdated id missing u j = elim (Bool-cases (u == user_id && j == job_id)) [
    | inl e ↦
        let same_user : u ≡ user_id = ground (arith, e) in
        let same_job : j ≡ job_id = ground (arith, e) in
        rw (find-add (is_opinion u j) d.feedback _, same_user, same_job, missing) (ground arith)
    | inr e ↦ elim (Option-cases (find (is_opinion u j) d.feedback)) [
      | inl gone ↦ rw (find-add (is_opinion u j) d.feedback _, gone, e) (ground (arith, e))
      | inr (x, there) ↦ rw (find-add (is_opinion u j) d.feedback _, there, e)
    ]
  ]

abbrev pub is_ok : {A : Type 0} → Result A → Bool
is_ok (ok a) = true
is_ok (raise e) = false

module _ (O : Outside) (user_id job_id : ℕ) (given : FeedbackInput) (s : Session Catalog) where
  -- The job is one that the user sees.
  abbrev pub seen : Option Job
  seen = find (λ job. is_visible user_id s.db job && job.id == job_id) s.db.jobs

  -- Nothing is saved, and an error is raised, or the database is saved as `d`.
  abbrev SavesOrRaises : Catalog → Type 0
  SavesOrRaises d =
      let (r, s') = give_feedback O user_id job_id given s in
      (s'.saved ≡ s.saved) × (is_ok r ≡ false) ⊎ (s'.saved ≡ d)

  unseen : seen ≡ none → give_feedback O user_id job_id given s ≡ (raise (app job_not_found), s)
  unfolding give_feedback get_job
  unseen gone = ground (arith, gone)

  module _ (job : Job) (visible : seen ≡ some job) where
    changes :
        (f : JobFeedback)
        → find (is_opinion user_id job_id) s.db.feedback ≡ some f
        → SavesOrRaises (changed user_id job_id given s.db f)
    unfolding give_feedback get_job feedback_of commit_session refresh_session flush_session
    changes f found = elim (Option-cases (next_fault s.faults)) [
      | inl works ↦ inr (ground (arith, visible, found, works))
      | inr (e, fails) ↦
          inl (ground (arith, visible, found, fails), ground (arith, visible, found, fails))
    ]

    adds :
        find (is_opinion user_id job_id) s.db.feedback ≡ none
        → SavesOrRaises (added user_id job_id given s.db (O.uuid4 s.ticks))
    unfolding give_feedback get_job feedback_of save_feedback commit_session refresh_session
        flush_session
    adds missing = elim (Option-cases (next_fault s.faults)) [
      | inl works ↦ inr (ground (arith, visible, missing, works))
      | inr (e, fails) ↦
          inl (ground (arith, visible, missing, fails), ground (arith, visible, missing, fails))
    ]

  -- The table of feedback is a map from a user and a job to a label and a note, and giving feedback
  -- sets one key of it: where the user does not see the job nothing changes, and otherwise an error is
  -- raised and what is saved is as it was, or the saved map is the one before with the key set and every
  -- other key as it was. Rows with the same identifier must have the same key.
  pub give_feedback-IsUpdated :
      DistinctIds s.db.feedback
      → let (r, s') = give_feedback O user_id job_id given s in
        (seen ≡ none) × (r ≡ raise (app job_not_found)) × (s' ≡ s)
        ⊎ (s'.saved ≡ s.saved) × (is_ok r ≡ false)
        ⊎ IsUpdated user_id job_id given s.db s'.saved
  give_feedback-IsUpdated distinct = elim (Option-cases seen) [
    | inl gone ↦ inl (gone, ap (λ p. p.0) (unseen gone), ap (λ p. p.1) (unseen gone))
    | inr (job, visible) ↦
        inr (elim (Option-cases (find (is_opinion user_id job_id) s.db.feedback)) [
          | inl missing ↦ elim (adds job visible missing) [
            | inl lost ↦ inl lost
            | inr e ↦
                inr (rw e (added-IsUpdated user_id job_id given s.db (O.uuid4 s.ticks) missing))
          ]
          | inr (f, found) ↦ elim (changes job visible f found) [
            | inl lost ↦ inl lost
            | inr e ↦ inr (rw e (changed-IsUpdated user_id job_id given s.db f distinct found))
          ]
        ])
  ]
