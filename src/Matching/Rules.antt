-- ===== src/Matching/Rules.antt =====
-- matching/rule_engine.py (app): `evaluate_rules`. The job is what the rules read of one, and the
-- confidence, a constant float, is left out.
use job_finder_agent.Common.{
  ℕ, ◌+◌, max, min, Bool, true, false, not, List, [], ◌∷◌, ◌++◌, any, filter_by, length, String,
  contains, str_eq, leb, if◌then◌else◌, Texts, ◌⧺◌,
}
use job_finder_agent.Preferences.Schemas.{PreferenceInput}

pub record Posting : Type 0 where
  pub title : String
  pub description : String
  pub company_name : String
  pub locations : List String

pub data Decision : Type 0 where
  reject review notify : Decision

pub record Components : Type 0 where
  pub skills : ℕ
  pub experience : ℕ
  pub location : ℕ
  pub role : ℕ
  pub salary : ℕ
  pub company : ℕ

pub record MatchDecision : Type 0 where
  pub score : ℕ
  pub decision : Decision
  pub component_scores : Components
  pub matched_criteria : List String
  pub missing_criteria : List String
  pub concerns : List String
  pub reasoning : String

abbrev pub is_empty : {A : Type 0} → List A → Bool
is_empty [] = true
is_empty (x ∷ xs) = false

-- `scaled a b` is `int(a / b * 40)` in floating-point numbers.
module _ (T : Texts) (scaled : ℕ → ℕ → ℕ) where
  -- `term.casefold() in text`
  abbrev pub occurs : String → String → Bool
  occurs text term = contains (T.casefold term) text

  unfoldable pub job_text : Posting → String
  job_text job = T.casefold (job.title ⧺ " " ⧺ job.description)

  -- The scores, the dictionary in the result.
  unfoldable pub components : Posting → PreferenceInput → List String → Components
  components job p matched = record {
    skills =
        min 40
          (scaled (length matched) (max 1 (length (p.skills.must_have ++ p.skills.nice_to_have))));
    experience = 0;
    location = if any (occurs (T.casefold (T.join " " job.locations))) p.locations then 15 else 0;
    role = if any (occurs (T.casefold job.title)) p.titles then 10 else 0;
    salary = 0;
    company =
        if any (λ name. str_eq (T.casefold name) (T.casefold job.company_name)) p.companies
        then 5
        else 0;
  }

  abbrev pub total : Components → ℕ
  total c = c.role + c.location + c.skills + c.company

  unfoldable pub evaluate_rules : Posting → PreferenceInput → MatchDecision
  unfolding job_text components
  evaluate_rules job p =
      let text = job_text job in
      let concerns = filter_by (occurs text) p.exclusions in
      let matched = filter_by (occurs text) (p.skills.must_have ++ p.skills.nice_to_have) in
      let c = components job p matched in
      record {
        score = if is_empty concerns then total c else 0;
        decision =
            if is_empty concerns
            then if leb p.minimum_score (total c) then notify else review
            else reject;
        component_scores = c;
        matched_criteria = matched;
        missing_criteria = filter_by (λ skill. not (occurs text skill)) p.skills.must_have;
        concerns = concerns;
        reasoning = "Rule-based match evaluation";
      }
