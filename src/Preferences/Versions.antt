-- ===== src/Preferences/Versions.antt =====
-- The versions of a user's preferences.
use job_finder_agent.Common.{
  ℕ, suc, ◌+◌, ◌≤◌, ◌<◌, ◌≡◌, ◌≢◌, refl, Bool, true, false, some, List, [], ◌∷◌, any, filter_by,
  length, All, String, arith, ◌==◌, update_where, add, Texts, Bool-cases, inl, inr, length-append,
  length-update_where, ◌∙◌, ap,
}
use job_finder_agent.Preferences.Validation.{validate-again}
use job_finder_agent.Session.{
  Session, Result, ok, commit_session, flush_session, refresh_session, Result-cases,
}
use job_finder_agent.Preferences.Schemas.{PreferenceInput, validate}
use job_finder_agent.Preferences.Store.{
  Profile, Profiles, PreferenceResponse, ensure_user, get_active, one_or_none, latest_version,
  deactivate_active, deactivated, create_profile, store_preferences, update, respond,
  active_preferences, of_user, active_of, default_weights,
}

-- The user's profiles that are active, after those of the user are deactivated and one is added.
none_active :
    (user_id : ℕ) (ps : List Profile)
    → filter_by (active_of user_id) (update_where (active_of user_id) deactivated ps) ≡ []
unfolding update_where
none_active user_id [] = refl
none_active user_id (p ∷ ps) = ground (arith, none_active user_id ps)

filter_by-add :
    (q : Profile → Bool) (ps : List Profile) (p : Profile)
    → filter_by q ps ≡ []
    → q p ≡ true
    → filter_by q (add p ps) ≡ p ∷ []
filter_by-add q [] p h k = ground (arith, k)
filter_by-add q (x ∷ ps) p h k = ground (arith, filter_by-add q ps p, k)

-- A profile's version is at most the latest one.
latest_version-le :
    (user_id bound : ℕ) (ps : List Profile)
    → latest_version user_id ps ≤ bound
    → All (λ p. of_user user_id p ≡ true → p.version < bound + 1) ps
unfolding latest_version
latest_version-le user_id bound [] h = tt
latest_version-le user_id bound (p ∷ ps) h =
    (λ mine. ground (arith, mine), latest_version-le user_id bound ps (ground arith))

-- The profiles of another user stay as they are.
others_kept :
    (user_id other_id : ℕ) (new : Profile) (ps : List Profile)
    → other_id ≢ user_id
    → of_user other_id new ≡ false
    → filter_by (of_user other_id) (add new (update_where (active_of user_id) deactivated ps))
      ≡ filter_by (of_user other_id) ps
unfolding update_where
others_kept user_id other_id new [] apart h = ground (arith, h)
others_kept user_id other_id new (p ∷ ps) apart h =
    ground (arith, others_kept user_id other_id new ps apart h)

module _ (T : Texts) (uuid4 : ℕ → ℕ) (uuid_text : ℕ → String) where
  -- The profile that is stored, and the response that shows a profile.
  abbrev new_profile : ℕ → ℕ → PreferenceInput → List Profile → Profile
  new_profile user_id id preferences ps = record {
    id = id;
    user_id = user_id;
    version = latest_version user_id ps + 1;
    config = preferences;
    matching_weights = default_weights;
    is_active = true;
  }

  abbrev shown : Profile → PreferenceResponse
  shown p = record {
    preferences = p.config;
    version = p.version;
    is_active = p.is_active;
    weights = p.matching_weights;
  }

  abbrev stored : ℕ → PreferenceInput → Session Profiles → Result Profile × Session Profiles
  stored = store_preferences T uuid4 uuid_text

  store_preferences-profiles :
      (user_id : ℕ) (preferences : PreferenceInput) (s : Session Profiles) (p : Profile)
      → (stored user_id preferences s).0 ≡ ok p
      → let s' = (stored user_id preferences s).1 in
        (p ≡ new_profile user_id (uuid4 s.ticks) preferences s.db.profiles)
        × (s'.db.profiles ≡ add p (update_where (active_of user_id) deactivated s.db.profiles))
        × (s'.saved ≡ s'.db)
  unfolding store_preferences ensure_user deactivate_active create_profile commit_session
      flush_session refresh_session
  store_preferences-profiles user_id preferences s p h =
      elim (Bool-cases (any (λ u. u == user_id) s.db.users)) [
        | inl e ↦ ground (arith, e)
        | inr e ↦ ground (arith, e)
      ]

  respond-shown :
      (p : Profile) (s : Session Profiles)
      → validate T p.config ≡ some p.config
      → respond T uuid4 uuid_text p s ≡ (ok (shown p), s)
  unfolding respond
  respond-shown p s h = ground (arith, h)

  active_preferences-shown :
      (user_id : ℕ) (p : Profile) (s : Session Profiles)
      → filter_by (active_of user_id) s.db.profiles ≡ p ∷ []
      → validate T p.config ≡ some p.config
      → active_preferences T uuid4 uuid_text user_id s ≡ (ok (shown p), s)
  unfolding active_preferences get_active one_or_none
  active_preferences-shown user_id p s only h = ground (arith, only, respond-shown p s h)

  update-shown :
      (user_id : ℕ) (preferences : PreferenceInput) (s : Session Profiles) (r : PreferenceResponse)
      → validate T preferences ≡ some preferences
      → (update T uuid4 uuid_text user_id preferences s).0 ≡ ok r
      → let p = new_profile user_id (uuid4 s.ticks) preferences s.db.profiles in
        ((stored user_id preferences s).0 ≡ ok p)
        × (r ≡ shown p)
        × ((update T uuid4 uuid_text user_id preferences s).1 ≡ (stored user_id preferences s).1)
  unfolding update
  update-shown user_id preferences s r valid h =
      elim (Result-cases (stored user_id preferences s).0) [
        | inl (p, e) ↦
            let (same, _, _) = store_preferences-profiles user_id preferences s p e in
            let fits : validate T p.config ≡ some p.config = rw same valid in
            let answer = respond-shown p (stored user_id preferences s).1 fits in
            (e ∙ ap ok same, ground (arith, e, answer, same), ground (arith, e, answer))
        | inr (x, e) ↦ ground (arith, e)
      ]

  -- An update that succeeds can be read back: the preferences that a user then has are the ones that
  -- the update returned, those given, in a version above every one that the user had before, all of
  -- it saved; no profile is lost, and those of the other users are as they were. This holds for
  -- preferences that were validated, where `str.strip` leaves a stripped text as it is.
  pub update-active_preferences :
      ((v : String) → T.strip (T.strip v) ≡ T.strip v)
      → (user_id : ℕ) (given preferences : PreferenceInput) (s : Session Profiles)
      → (r : PreferenceResponse) → validate T given ≡ some preferences
      → (update T uuid4 uuid_text user_id preferences s).0 ≡ ok r
      → let s' = (update T uuid4 uuid_text user_id preferences s).1 in
        (active_preferences T uuid4 uuid_text user_id s' ≡ (ok r, s'))
        × (r.preferences ≡ preferences)
        × All (λ p. of_user user_id p ≡ true → p.version < r.version) s.db.profiles
        × (s'.saved ≡ s'.db)
        × (length s'.db.profiles ≡ suc (length s.db.profiles))
        × ((other_id : ℕ)
            → other_id ≢ user_id
            → filter_by (of_user other_id) s'.db.profiles
              ≡ filter_by (of_user other_id) s.db.profiles)
  update-active_preferences strips user_id given preferences s r valid h =
      let ps = s.db.profiles in
      let p = new_profile user_id (uuid4 s.ticks) preferences ps in
      let again = validate-again T strips given preferences valid in
      let (made, is_shown, after) = update-shown user_id preferences s r again h in
      let (_, rows, saved) = store_preferences-profiles user_id preferences s p made in
      let s' = (stored user_id preferences s).1 in
      let only : filter_by (active_of user_id) s'.db.profiles ≡ p ∷ [] =
        ap (filter_by (active_of user_id)) rows
        ∙ filter_by-add (active_of user_id) (update_where (active_of user_id) deactivated ps) p
            (none_active user_id ps) (ground arith) in
      rw (after, is_shown)
        (
          active_preferences-shown user_id p s' only again,
          refl,
          latest_version-le user_id (latest_version user_id ps) ps (omega arith),
          saved,
          ap length rows
              ∙ ground (
                arith,
                length-append (update_where (active_of user_id) deactivated ps) (p ∷ []),
                length-update_where (active_of user_id) deactivated ps,
              ),
          λ other_id apart.
              ap (filter_by (of_user other_id)) rows
              ∙ others_kept user_id other_id p ps apart (ground (arith, apart)),
        )
