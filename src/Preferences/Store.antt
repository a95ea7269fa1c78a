-- ===== src/Preferences/Store.antt =====
-- repositories/preferences.py, domain/preferences/service.py and v2_service.py (app). A profile's
-- configuration is the preferences that it was dumped from; its `created_at`, which the database
-- fills, is left out.
use job_finder_agent.Common.{
  ℕ, ◌+◌, max, Bool, true, false, ◌&&◌, Option, none, some, List, [], ◌∷◌, any, filter_by, String,
  if◌then◌else◌, ◌==◌, update_where, add, Texts,
}
use job_finder_agent.Errors.Exceptions.{active_preference_not_found}
use job_finder_agent.Session.{
  Action, ◌>>=◌, ◌>>◌, pure, fail, query, modify, draw, commit_session, flush_session,
  refresh_session, raise, other,
}
use job_finder_agent.Preferences.Schemas.{PreferenceInput, validate}

pub record Profile : Type 0 where
  pub id : ℕ
  pub user_id : ℕ
  pub version : ℕ
  pub config : PreferenceInput
  pub matching_weights : List (String × ℕ)
  pub is_active : Bool

-- The table of profiles, and the identifiers of the users.
pub record Profiles : Type 0 where
  pub users : List ℕ
  pub profiles : List Profile

pub record PreferenceResponse : Type 0 where
  pub preferences : PreferenceInput
  pub version : ℕ
  pub is_active : Bool
  pub weights : List (String × ℕ)

pub record V2PreferenceResponse : Type 0 where
  pub api_version : String
  pub profile_id : String
  pub version : ℕ
  pub status : String
  pub preferences : PreferenceInput
  pub matching_weights : List (String × ℕ)

abbrev pub default_weights : List (String × ℕ)
default_weights =
    ("skills", 40)
    ∷ ("experience", 20)
    ∷ ("location", 15)
    ∷ ("role", 10)
    ∷ ("salary", 10)
    ∷ ("company", 5)
    ∷ []

abbrev pub of_user : ℕ → Profile → Bool
of_user user_id p = p.user_id == user_id

abbrev pub active_of : ℕ → Profile → Bool
active_of user_id p = p.user_id == user_id && p.is_active

unfoldable pub ensure_user : ℕ → Action Profiles (Unit {0})
ensure_user user_id = do
  known ← query (λ d. any (λ u. u == user_id) d.users)
  if known then pure tt else modify (λ d. record d { users = add user_id d.users }) >> flush_session

-- `scalar_one_or_none`, which fails on two rows.
unfoldable pub one_or_none : List Profile → Action Profiles (Option Profile)
one_or_none [] = pure none
one_or_none (p ∷ []) = pure (some p)
one_or_none (p ∷ q ∷ ps) = λ s. (raise (other "MultipleResultsFound"), s)

unfoldable pub get_active : ℕ → Action Profiles (Option Profile)
unfolding one_or_none
get_active user_id = do
  rows ← query (λ d. filter_by (active_of user_id) d.profiles)
  one_or_none rows

-- `select(max(version))`, or 0 where there is no profile.
unfoldable pub latest_version : ℕ → List Profile → ℕ
latest_version user_id [] = 0
latest_version user_id (p ∷ ps) =
    let rest = latest_version user_id ps in if of_user user_id p then max p.version rest else rest

abbrev pub deactivated : Profile → Profile
deactivated p = record p { is_active = false }

unfoldable pub deactivate_active : ℕ → Action Profiles (Unit {0})
deactivate_active user_id =
    modify (λ d. record d { profiles = update_where (active_of user_id) deactivated d.profiles })

-- `PreferenceRepository.create`
unfoldable pub create_profile : Profile → Action Profiles Profile
create_profile profile = do
  modify (λ d. record d { profiles = add profile d.profiles })
  commit_session
  refresh_session
  pure profile

-- The parameters are the texts, the random identifiers and their texts.
module _ (T : Texts) (uuid4 : ℕ → ℕ) (uuid_text : ℕ → String) where
  -- `PreferenceResponse(**profile.config, …)` validates what it is made of.
  unfoldable pub respond : Profile → Action Profiles PreferenceResponse
  respond profile = elim (validate T profile.config) [
    | none ↦ λ s. (raise (other "ValidationError"), s)
    | some p ↦ pure (record {
      preferences = p;
      version = profile.version;
      is_active = profile.is_active;
      weights = profile.matching_weights;
    })
  ]

  unfoldable pub to_v2_response : Profile → Action Profiles V2PreferenceResponse
  to_v2_response profile = elim (validate T profile.config) [
    | none ↦ λ s. (raise (other "ValidationError"), s)
    | some p ↦ pure (record {
      api_version = "v2";
      profile_id = uuid_text profile.id;
      version = profile.version;
      status = if profile.is_active then "active" else "inactive";
      preferences = p;
      matching_weights = profile.matching_weights;
    })
  ]

  -- What `update` does in both services before it answers.
  unfoldable pub store_preferences : ℕ → PreferenceInput → Action Profiles Profile
  unfolding ensure_user latest_version deactivate_active create_profile
  store_preferences user_id preferences = do
    ensure_user user_id
    latest ← query (λ d. latest_version user_id d.profiles)
    deactivate_active user_id
    id ← draw uuid4
    create_profile (record {
      id = id;
      user_id = user_id;
      version = latest + 1;
      config = preferences;
      matching_weights = default_weights;
      is_active = true;
    })

  -- `PreferenceService.update` and `V2PreferenceService.update`
  unfoldable pub update : ℕ → PreferenceInput → Action Profiles PreferenceResponse
  unfolding store_preferences respond
  update user_id preferences = do profile ← store_preferences user_id preferences; respond profile

  unfoldable pub update_v2 : ℕ → PreferenceInput → Action Profiles V2PreferenceResponse
  unfolding store_preferences to_v2_response
  update_v2 user_id preferences = do
    profile ← store_preferences user_id preferences
    to_v2_response profile

  -- `PreferenceService.get_active` and `V2PreferenceService.get_active`
  unfoldable pub active_preferences : ℕ → Action Profiles PreferenceResponse
  unfolding get_active respond
  active_preferences user_id = do
    found ← get_active user_id
    elim found [ none ↦ fail active_preference_not_found | some profile ↦ respond profile ]

  unfoldable pub active_preferences_v2 : ℕ → Action Profiles V2PreferenceResponse
  unfolding get_active to_v2_response
  active_preferences_v2 user_id = do
    found ← get_active user_id
    elim found [ none ↦ fail active_preference_not_found | some profile ↦ to_v2_response profile ]
