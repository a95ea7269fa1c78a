-- ===== src/Api/Admin.antt =====
-- Who may manage roles: `create_role` and `assign_role` of api/v1/auth.py (app).
use job_finder_agent.Common.{
  ℕ, suc, ◌≡◌, ◌⊎◌, refl, inl, inr, true, Option, none, some, String, str_eq, arith, any,
  Option-cases, Bool-cases,
}
use job_finder_agent.Errors.Exceptions.{permission_denied}
use job_finder_agent.Session.{
  Session, Action, Result, Exception, ok, raise, app, ◌>>=◌, Result-cases,
}
use job_finder_agent.Auth.Models.{User, Identity}
use job_finder_agent.Auth.Platform.{Platform, Settings}
use job_finder_agent.Auth.Security.{decode_access_token}
use job_finder_agent.Auth.Repository.{role_names, roles, user, auth_session}
use job_finder_agent.Auth.Access.{
  Authorization, bearer, other_scheme, get_current_user, require_role, user_of_token, token_ids,
  require_session, require_active,
}
use job_finder_agent.Api.Responses.{ClientRequest}
use job_finder_agent.Api.Sessions.{
  require_admin, create_role_endpoint, assign_role_endpoint, respond_role,
}
use job_finder_agent.Auth.Service.{assign_role_by_name}

-- Nothing is written.
abbrev Unchanged : {A : Type 0} → Session Identity → Result A × Session Identity → Type 0
Unchanged s (r, s') = (s'.db ≡ s.db) × (s'.saved ≡ s.saved)

module _ (P : Platform) (cfg : Settings) where
  require_session-same :
      (user_id : ℕ) (session_id : Option ℕ) (s : Session Identity)
      → (require_session user_id session_id s).1 ≡ s
  unfolding require_session auth_session
  require_session-same user_id none s = refl
  require_session-same user_id (some id) s = ground arith

  user_of_token-Unchanged :
      (token : String) (s : Session Identity) → Unchanged s (user_of_token P cfg token s)
  unfolding user_of_token user require_active
  user_of_token-Unchanged token s =
      let read : Session Identity = record s { ticks = suc s.ticks } in
      elim (Option-cases
        (decode_access_token P (P.now s.ticks) token cfg.jwt_secret_key cfg.jwt_issuer)) [
          | inl e ↦ ground (arith, e)
          | inr (c, e) ↦ elim (Option-cases (token_ids P c)) [
            | inl k ↦ ground (arith, e, k)
            | inr (ids, k) ↦ ground (arith, e, k, require_session-same ids.0 ids.1 read)
          ]
        ]

  get_current_user-Unchanged :
      (authorization : Option Authorization) (s : Session Identity)
      → cfg.auth_require_token ≡ true
      → Unchanged s (get_current_user P cfg authorization s)
  unfolding get_current_user
  get_current_user-Unchanged none s asks = ground (arith, asks)
  get_current_user-Unchanged (some other_scheme) s asks = (refl, refl)
  get_current_user-Unchanged (some (bearer token)) s asks = user_of_token-Unchanged token s

  -- The current user is known, and has the role.
  abbrev pub IsAdmin : Option Authorization → Session Identity → Type 0
  IsAdmin authorization s =
      (u : User) × ((get_current_user P cfg authorization s).0 ≡ ok u)
      × (any (str_eq "admin") (role_names u.id s.db) ≡ true)

  abbrev pub Refused : {A : Type 0} → Session Identity → Result A × Session Identity → Type 0
  Refused s (r, s') = (e : Exception) × (r ≡ raise e) × Unchanged s (r, s')

  module _ (authorization : Option Authorization) (s : Session Identity)
      (asks : cfg.auth_require_token ≡ true) where
    require_admin-cases :
        {A : Type 0} (f : User → Action Identity A)
        → IsAdmin authorization s ⊎ Refused s ((require_admin P cfg authorization >>= f) s)
    unfolding require_admin require_role roles
    require_admin-cases f =
        let (same, saved) = get_current_user-Unchanged authorization s asks in
        elim (Result-cases (get_current_user P cfg authorization s).0) [
          | inl (u, e) ↦ elim (Bool-cases (any (str_eq "admin") (role_names u.id s.db))) [
            | inl known ↦ inl (u, e, known)
            | inr unknown ↦ inr (
              app permission_denied,
              ground (arith, e, unknown),
              ground (arith, e, same, saved, unknown),
            )
          ]
          | inr (x, e) ↦ inr (x, ground (arith, e), ground (arith, e, same, saved))
        ]

    -- Where a token is asked for, the endpoints that manage roles are behind the role of an
    -- administrator: unless the request's token names a user that has it, each of them raises an
    -- error and writes nothing.
    pub role_endpoints-IsAdmin :
        (name : String) (description : Option String) (request : ClientRequest) (user_id : ℕ)
        → (IsAdmin authorization s
            ⊎ Refused s (create_role_endpoint P cfg authorization name description request s))
          × (IsAdmin authorization s
              ⊎ Refused s (assign_role_endpoint P cfg authorization user_id name s))
    unfolding create_role_endpoint assign_role_endpoint
    role_endpoints-IsAdmin name description request user_id = (
      require_admin-cases (λ u. respond_role P cfg name description request),
      require_admin-cases (λ u. assign_role_by_name P cfg user_id name),
    )
