-- ===== src/Notifications/Worker.antt =====
-- `run_with_dead_letter` of workers/notifications.py and `with_retries` of ingestion/base.py (app):
-- the operation is a parameter, a step on a state `S` that returns or fails.
use job_finder_agent.Common.{
  ℕ, zero, suc, ◌+◌, ◌≤◌, ◌<◌, ◌≡◌, ◌⊎◌, inl, inr, refl, Bool, true, false, ◌||◌, not, none, String,
  arith, if◌then◌else◌, ◌==◌, Bool-cases,
}
use job_finder_agent.Notifications.Deliveries.{Failure, is_retryable}

pub data Outcome (A : Type 0) : Type 0 where
  returned : A → Outcome A
  failure : Failure → Outcome A

-- What the worker answers: the operation's value, or the dead letter with its attempts and error. The
-- last is the None of a worker that may not attempt anything.
pub data Answer (A : Type 0) : Type 0 where
  value : A → Answer A
  dead_letter : ℕ → String → Answer A
  nothing : Answer A

module _ {S A : Type 0} (operation : S → Outcome A × S) where
  -- The rest of the loop, with `left` attempts to go after `attempts` were made.
  unfoldable pub worker_loop : ℕ → ℕ → S → Answer A × S
  worker_loop zero attempts s = (nothing, s)
  worker_loop (suc left) attempts s =
      let (r, s') = operation s in
      let rest = worker_loop left (suc attempts) s' in
      elim r [
        | returned a ↦ (value a, s')
        | failure e ↦
            if not (is_retryable e) || left == 0
            then (dead_letter (suc attempts) e.message, s')
            else rest
      ]

  unfoldable pub run_with_dead_letter : ℕ → S → Answer A × S
  unfolding worker_loop
  run_with_dead_letter max_attempts s = worker_loop max_attempts 0 s

  -- `with_retries`: only an AdapterError is retried, by its own `retryable`; any other
  -- exception is one with `retryable` false. The last failure is
  -- raised, and so is the RuntimeError of a loop that made no attempt.
  unfoldable pub with_retries : ℕ → S → Outcome A × S
  with_retries zero s = (
    failure (record {
      retryable = false;
      is_connection = false;
      status_code = none;
      message = "retry operation exhausted";
    }),
    s,
  )
  with_retries (suc left) s =
      let (r, s') = operation s in
      let rest = with_retries left s' in
      elim r [
        | returned a ↦ (returned a, s')
        | failure e ↦ if not e.retryable || left == 0 then (failure e, s') else rest
      ]

  -- The state after `n` attempts.
  abbrev pub after : ℕ → S → S
  after zero s = s
  after (suc n) s = after n (operation s).1

  -- What `n` attempts gave, where each failed and could be retried.
  abbrev pub AllRetried : (Failure → Bool) → ℕ → S → Type 0
  AllRetried again zero s = Unit
  AllRetried again (suc n) s =
      ((e : Failure) × ((operation s).0 ≡ failure e) × (again e ≡ true))
      × AllRetried again n (operation s).1

  Outcome-cases : (r : Outcome A) → ((a : A) × (r ≡ returned a)) ⊎ ((e : Failure) × (r ≡ failure e))
  Outcome-cases (returned a) = inl (a, refl)
  Outcome-cases (failure e) = inr (e, refl)

  -- `with_retries` ends with the outcome of one of its attempts, the last that it made: it makes at
  -- least one and at most the number given, every earlier one failed in a way that can be retried,
  -- and the last one returned, failed for good, or used up the attempts.
  pub with_retries-last :
      (attempts : ℕ) (s : S)
      → 1 ≤ attempts
      → (n : ℕ) × (n < attempts)
        × (with_retries attempts s ≡ operation (after n s))
        × AllRetried (λ e. e.retryable) n s
        × (((a : A) × ((operation (after n s)).0 ≡ returned a))
            ⊎ ((e : Failure) × ((operation (after n s)).0 ≡ failure e)
                × ((e.retryable ≡ false) ⊎ (suc n ≡ attempts))))
  unfolding with_retries
  with_retries-last zero s h = ground arith
  with_retries-last (suc left) s h = elim (Outcome-cases (operation s).0) [
    | inl (a, e) ↦ (0, omega arith, ground (arith, e), tt, inl (a, e))
    | inr (x, e) ↦ elim (Bool-cases x.retryable) [
      | inr final ↦ (0, omega arith, ground (arith, e, final), tt, inr (x, e, inl final))
      | inl again ↦ elim (Bool-cases (left == 0)) [
        | inl used ↦
            (0, omega arith, ground (arith, e, used), tt, inr (x, e, inr (ground (arith, used))))
        | inr more ↦
            let (n, lt, same, retried, end) =
              with_retries-last left (operation s).1 (ground (arith, more)) in
            (
              suc n,
              omega (arith, lt),
              ground (arith, e, again, more, same),
              ((x, e, again), retried),
              elim end [
                | inl returns ↦ inl returns
                | inr (y, f, why) ↦ inr (
                  y,
                  f,
                  elim why [ inl final ↦ inl final | inr used ↦ inr (omega (arith, used)) ],
                )
              ],
            )
      ]
    ]
  ]

  worker_loop-answers :
      (left attempts : ℕ) (s : S)
      → 1 ≤ left
      → (n : ℕ) × (n < left)
        × AllRetried is_retryable n s
        × (((a : A) × ((operation (after n s)).0 ≡ returned a)
              × (worker_loop left attempts s ≡ (value a, (operation (after n s)).1)))
            ⊎ ((e : Failure) × ((operation (after n s)).0 ≡ failure e)
                × ((is_retryable e ≡ false) ⊎ (suc n ≡ left))
                × (worker_loop left attempts s
                    ≡ (dead_letter (attempts + suc n) e.message, (operation (after n s)).1))))
  unfolding worker_loop
  worker_loop-answers zero attempts s h = ground arith
  worker_loop-answers (suc left) attempts s h = elim (Outcome-cases (operation s).0) [
    | inl (a, e) ↦ (0, omega arith, tt, inl (a, e, ground (arith, e)))
    | inr (x, e) ↦ elim (Bool-cases (is_retryable x)) [
      | inr final ↦ (0, omega arith, tt, inr (x, e, inl final, ground (arith, e, final)))
      | inl again ↦ elim (Bool-cases (left == 0)) [
        | inl used ↦
            (0, omega arith, tt, inr (x, e, inr (ground (arith, used)), ground (arith, e, used)))
        | inr more ↦
            let (n, lt, retried, end) =
              worker_loop-answers left (suc attempts) (operation s).1 (ground (arith, more)) in
            (
              suc n,
              omega (arith, lt),
              ((x, e, again), retried),
              elim end [
                | inl (a, f, same) ↦ inl (a, f, ground (arith, e, again, more, same))
                | inr (y, f, why, same) ↦ inr (
                  y,
                  f,
                  elim why [ inl final ↦ inl final | inr used ↦ inr (omega (arith, used)) ],
                  ground (arith, e, again, more, same),
                )
              ],
            )
      ]
    ]
  ]

  -- A worker that may attempt anything always answers: with the value of the attempt that returned, or
  -- with a dead letter that counts its attempts, at most the number given, and bears the error of
  -- the last one, which could not be retried or used up the attempts; every earlier attempt failed in
  -- a way that can be retried.
  pub run_with_dead_letter-answers :
      (max_attempts : ℕ) (s : S)
      → 1 ≤ max_attempts
      → (n : ℕ) × (n < max_attempts)
        × AllRetried is_retryable n s
        × (((a : A) × ((operation (after n s)).0 ≡ returned a)
              × (run_with_dead_letter max_attempts s ≡ (value a, (operation (after n s)).1)))
            ⊎ ((e : Failure) × ((operation (after n s)).0 ≡ failure e)
                × ((is_retryable e ≡ false) ⊎ (suc n ≡ max_attempts))
                × (run_with_dead_letter max_attempts s
                    ≡ (dead_letter (suc n) e.message, (operation (after n s)).1))))
  unfolding run_with_dead_letter
  run_with_dead_letter-answers max_attempts s h =
      let (n, lt, retried, end) = worker_loop-answers max_attempts 0 s h in
      (
        n,
        lt,
        retried,
        elim end [
          | inl returns ↦ inl returns
          | inr (e, f, why, same) ↦ inr (e, f, why, ground (arith, same))
        ],
      )
