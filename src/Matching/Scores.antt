-- ===== src/Matching/Scores.antt =====
-- What the rules promise of a score and of a decision.
use job_finder_agent.Common.{
  ℕ, ◌+◌, ◌≤◌, ◌<◌, ◌≡◌, ◌≢◌, ◌↔◌, ◌⊎◌, refl, Bool, true, false, not, List, [], ◌∷◌, ◌++◌, any, all,
  filter_by, length, arith, String, Texts, Bool-cases, inl, inr,
}
use job_finder_agent.Preferences.Schemas.{PreferenceInput}
use job_finder_agent.Matching.Rules.{
  Posting, reject, review, notify, evaluate_rules, components, job_text, occurs, total, is_empty,
}

filter_by-not-empty :
    {A : Type 0} (p : A → Bool) (xs : List A)
    → (filter_by (λ x. not (p x)) xs ≡ []) ↔ (all p xs ≡ true)
filter_by-not-empty p [] = (λ _. refl, λ _. refl)
filter_by-not-empty p (x ∷ xs) = ground (arith, filter_by-not-empty p xs)

length-filter_by-not :
    {A : Type 0} (p : A → Bool) (xs : List A)
    → length (filter_by p xs) + length (filter_by (λ x. not (p x)) xs) ≡ length xs
length-filter_by-not p [] = refl
length-filter_by-not p (x ∷ xs) = ground (arith, length-filter_by-not p xs)

length-filter_by-append :
    {A : Type 0} (p : A → Bool) (xs ys : List A)
    → length (filter_by p (xs ++ ys)) ≡ length (filter_by p xs) + length (filter_by p ys)
length-filter_by-append p [] ys = omega arith
length-filter_by-append p (x ∷ xs) ys = ground (arith, length-filter_by-append p xs ys)

is_empty-filter_by :
    {A : Type 0} (p : A → Bool) (xs : List A) → is_empty (filter_by p xs) ≡ not (any p xs)
is_empty-filter_by p [] = refl
is_empty-filter_by p (x ∷ xs) = ground (arith, is_empty-filter_by p xs)

module _ (T : Texts) (scaled : ℕ → ℕ → ℕ) (job : Posting) (p : PreferenceInput) where
  total-le : (matched : List String) → total T scaled (components T scaled job p matched) ≤ 70
  unfolding components
  total-le matched = ground arith

  -- The list of concerns in the code's test.
  no_concerns :
      is_empty (filter_by (occurs T scaled (job_text T scaled job)) p.exclusions)
      ≡ not (any (occurs T scaled (job_text T scaled job)) p.exclusions)
  no_concerns = is_empty-filter_by (occurs T scaled (job_text T scaled job)) p.exclusions

  abbrev matched_skills : List String
  matched_skills =
      filter_by (occurs T scaled (job_text T scaled job))
        (p.skills.must_have ++ p.skills.nice_to_have)

  -- No score is above 70, whatever the job and the preferences: the weights of experience and of
  -- salary are never given. So a minimum score above 70 (the default is 75) is never reached, and
  -- no job is then notified of.
  pub evaluate_rules-bounds :
      ((evaluate_rules T scaled job p).score ≤ 70)
      × (70 < p.minimum_score → (evaluate_rules T scaled job p).decision ≢ notify)
  unfolding evaluate_rules
  evaluate_rules-bounds =
      (ground (arith, total-le matched_skills), λ h. ground (arith, total-le matched_skills))

  -- Which skills are found, and which are missing.
  evaluate_rules-missing :
      let m = evaluate_rules T scaled job p in
      let occurring = occurs T scaled (job_text T scaled job) in
      ((m.missing_criteria ≡ []) ↔ (all occurring p.skills.must_have ≡ true))
      × (length (filter_by occurring p.skills.must_have) + length m.missing_criteria
          ≡ length p.skills.must_have)
      × (length m.matched_criteria
          ≡ length (filter_by occurring p.skills.must_have)
            + length (filter_by occurring p.skills.nice_to_have))
  unfolding evaluate_rules
  evaluate_rules-missing =
      let occurring = occurs T scaled (job_text T scaled job) in
      (
        filter_by-not-empty occurring p.skills.must_have,
        length-filter_by-not occurring p.skills.must_have,
        length-filter_by-append occurring p.skills.must_have p.skills.nice_to_have,
      )

  -- A job is rejected, with score 0, exactly where an exclusion occurs in its text; otherwise its
  -- score is the sum of the six components, and it is notified of exactly where that reaches the minimum.
  -- Whatever is decided, nothing is missing exactly where every required skill occurs in the job's text; the
  -- required skills that occur and those that are missing are as many as are required, and the
  -- skills that matched are as many as those, required or not, that occur.
  pub evaluate_rules-decision :
      let m = evaluate_rules T scaled job p in
      let occurring = occurs T scaled (job_text T scaled job) in
      (((any (occurs T scaled (job_text T scaled job)) p.exclusions ≡ true)
          × (m.decision ≡ reject)
          × (m.score ≡ 0))
        ⊎ (any (occurs T scaled (job_text T scaled job)) p.exclusions ≡ false)
          × (m.score
              ≡ m.component_scores.skills + m.component_scores.experience
                + m.component_scores.location + m.component_scores.role + m.component_scores.salary
                + m.component_scores.company)
          × ((m.decision ≡ notify) ↔ (p.minimum_score ≤ m.score))
          × ((m.decision ≡ review) ↔ (m.score < p.minimum_score)))
      × ((m.missing_criteria ≡ []) ↔ (all occurring p.skills.must_have ≡ true))
      × (length (filter_by occurring p.skills.must_have) + length m.missing_criteria
          ≡ length p.skills.must_have)
      × (length m.matched_criteria
          ≡ length (filter_by occurring p.skills.must_have)
            + length (filter_by occurring p.skills.nice_to_have))
  unfolding evaluate_rules components
  evaluate_rules-decision = (
    elim (Bool-cases (any (occurs T scaled (job_text T scaled job)) p.exclusions)) [
      | inl e ↦ inl (e, ground (arith, e, no_concerns), ground (arith, e, no_concerns))
      | inr e ↦ inr (
        e,
        ground (arith, e, no_concerns),
        ground (arith, e, no_concerns),
        ground (arith, e, no_concerns),
      )
    ],
    evaluate_rules-missing.0,
    evaluate_rules-missing.1,
    evaluate_rules-missing.2,
  )
