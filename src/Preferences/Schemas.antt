-- ===== src/Preferences/Schemas.antt =====
-- domain/preferences/schemas.py (app): the preferences and their validators. The salary is left out,
-- a float that the code only stores, and the messages of a refused model, which pydantic collects.
use job_finder_agent.Common.{
  ℕ, not, Option, none, some, List, [], ◌∷◌, map, any, all, length, String, str_eq, leb, ◌==◌,
  if◌then◌else◌, Texts, ◌>>=◌, ◌⧺◌,
}
use job_finder_agent.Session.{Result, ok, raise, other}

pub record Skills : Type 0 where
  pub must_have : List String
  pub nice_to_have : List String

pub record Experience : Type 0 where
  pub min : Option ℕ
  pub max : Option ℕ

pub record PreferenceInput : Type 0 where
  pub titles : List String
  pub skills : Skills
  -- `locations.preferred`
  pub locations : List String
  pub work_mode : List String
  pub experience : Experience
  -- `companies.preferred`
  pub companies : List String
  pub exclusions : List String
  -- `matching.minimum_score`
  pub minimum_score : ℕ

-- `set(texts)`
unfoldable pub to_set : List String → List String
to_set [] = []
to_set (x ∷ xs) = if any (str_eq x) xs then to_set xs else x ∷ to_set xs

unfoldable pub clean_values : Texts → List String → String → Result (List String)
unfolding to_set
clean_values T values field_name =
    let cleaned = map T.strip values in
    if any (λ v. str_eq v "") cleaned
    then raise (other (field_name ⧺ " cannot contain empty values"))
    else if not (length (to_set (map T.casefold cleaned)) == length cleaned)
    then raise (other (field_name ⧺ " cannot contain duplicates"))
    else ok cleaned

-- A validator that fails makes the model fail.
abbrev pub accepted : {A : Type 0} → Result A → Option A
accepted (ok a) = some a
accepted (raise e) = none

abbrev supported_modes : List String
supported_modes = "remote" ∷ "hybrid" ∷ "onsite" ∷ []

unfoldable pub validate_work_modes : List String → Option (List String)
validate_work_modes values =
    if all (λ v. any (str_eq v) supported_modes) values then some values else none

unfoldable pub validate_range : Experience → Option Experience
validate_range e = elim e.min [
  | none ↦ some e
  | some low ↦ elim e.max [ none ↦ some e | some high ↦ if leb low high then some e else none ]
]

module _ (T : Texts) where
  abbrev pub clean : List String → String → Option (List String)
  clean values field_name = accepted (clean_values T values field_name)

  -- The validators of `PreferenceInput` and of the models in it.
  unfoldable pub validate : PreferenceInput → Option PreferenceInput
  unfolding validate_work_modes validate_range
  validate p = do
    titles ← clean p.titles "titles"
    must_have ← clean p.skills.must_have "must_have"
    nice_to_have ← clean p.skills.nice_to_have "nice_to_have"
    locations ← clean p.locations "preferred locations"
    cleaned ← clean p.work_mode "work_mode"
    work_mode ← validate_work_modes cleaned
    experience ← validate_range p.experience
    companies ← clean p.companies "preferred companies"
    exclusions ← clean p.exclusions "exclusions"
    if leb p.minimum_score 100
        then some (record {
          titles = titles;
          skills = record { must_have = must_have; nice_to_have = nice_to_have };
          locations = locations;
          work_mode = work_mode;
          experience = experience;
          companies = companies;
          exclusions = exclusions;
          minimum_score = p.minimum_score;
        })
        else none
