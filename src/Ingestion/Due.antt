-- ===== src/Ingestion/Due.antt =====
-- Which sources a tick runs.
use job_finder_agent.Common.{
  ℕ, ◌+◌, ◌≤◌, ◌≡◌, ◌↔◌, refl, true, Option, none, some, List, [], ◌∷◌, filter_by, String, arith,
  Texts, Bool-cases, inl, inr,
}
use job_finder_agent.Session.{Result}
use job_finder_agent.Ingestion.Jobs.{Source}
use job_finder_agent.Ingestion.Schedule.{interval_seconds, is_due, tick}

module _ (T : Texts) (parse_int : String → Option ℕ) where
  -- An enabled source with an interval is due where it never succeeded, and otherwise exactly from the
  -- moment on at which the interval has passed since its last success; so it stays due until then.
  pub is_due-interval :
      (now seconds : ℕ) (source : Source)
      → source.enabled ≡ true
      → interval_seconds T parse_int source.schedule ≡ some seconds
      → (source.last_success_at ≡ none → is_due T parse_int now source ≡ true)
        × ((last : ℕ)
            → source.last_success_at ≡ some last
            → (is_due T parse_int now source ≡ true) ↔ (last + seconds ≤ now))
  unfolding is_due
  is_due-interval now seconds source on every =
      (λ never. ground (arith, on, every, never), λ last at. ground (arith, on, every, at))

  module _ {S A : Type 0} (runner : Source → S → Result A × S) where
    -- Runs each of the sources, one after the other.
    abbrev pub run_each : List Source → S → List (Result A) × S
    run_each [] s = ([], s)
    run_each (source ∷ sources) s =
        let (r, s') = runner source s in let (rs, s'') = run_each sources s' in (r ∷ rs, s'')

    -- A tick runs exactly the sources that are due, each once and in their order, and one that fails
    -- stops none of the others.
    pub tick-due :
        (now : ℕ) (sources : List Source) (s : S)
        → tick T parse_int runner now sources s
          ≡ run_each (filter_by (is_due T parse_int now) sources) s
    unfolding tick
    tick-due now [] s = refl
    tick-due now (source ∷ sources) s = elim (Bool-cases (is_due T parse_int now source)) [
      | inl due ↦ ground (arith, due, tick-due now sources (runner source s).1)
      | inr not_due ↦ ground (arith, not_due, tick-due now sources s)
    ]
