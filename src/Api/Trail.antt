-- ===== src/Api/Trail.antt =====
-- The services of domain/auth/service.py (app) leave the trail to their endpoints.
use job_finder_agent.Common.{
  ℕ, suc, ◌≡◌, ◌==◌, str_eq, refl, inl, inr, Bool, true, false, Option, none, List, [], String,
  arith, Option-cases, find, Bool-cases,
}
use job_finder_agent.Errors.Exceptions.{
  ErrorClass, authentication_error, base, account_locked, invalid_credentials,
  email_verification_required, invalid_refresh_token, refresh_token_replay,
}
use job_finder_agent.Errors.Classes.{is_instance, is_subclass_within}
use job_finder_agent.Session.{
  Session, Action, Result, ok, raise, app, other, ◌>>=◌, pure, Result-cases, commit_session,
  flush_session, next_fault, later_faults,
}
use job_finder_agent.Auth.Models.{AuditEvent, Identity, User, RefreshToken, is_active}
use job_finder_agent.Auth.Platform.{Platform, Settings}
use job_finder_agent.Auth.Security.{create_access_token}
use job_finder_agent.Auth.Repository.{
  has_text, role_names, roles, user, user_by_email, set_user, save_auth_session, save_refresh_token,
  revoke_tokens, revoke_tokens_where, refresh_token,
}
use job_finder_agent.Auth.Service.{
  authenticate, authenticate_user, issue_tokens, open_session, sign_tokens, refresh, rotate_token,
  refuse_token, Metadata, no_metadata,
}
use job_finder_agent.Api.Responses.{ClientRequest}
use job_finder_agent.Api.Accounts.{sign_in, metadata_of}

-- The database works, and the trail is `log`.
abbrev pub Works : List AuditEvent → Session Identity → Type 0
Works log s = (s.faults ≡ []) × (s.db.audit_events ≡ log)

-- The action returned, or raised what is caught.
abbrev pub is_settled : {A : Type 0} → (ErrorClass → Bool) → Result A → Bool
is_settled caught (ok a) = true
is_settled caught (raise e) = elim e [ app c ↦ caught c | other text ↦ false ]

module _ (caught : ErrorClass → Bool) (log : List AuditEvent) where
  -- While the database works an action writes nothing to the trail, and raises only what is caught.
  abbrev pub Tried : {A : Type 0} → Action Identity A → Type 0
  Tried m =
      (s : Session Identity) → Works log s → Works log (m s).1 × (is_settled caught (m s).0 ≡ true)

  pub >>=-Tried :
      {A B : Type 0} (m : Action Identity A) (f : A → Action Identity B)
      → Tried m
      → ((a : A) → Tried (f a))
      → Tried (m >>= f)
  >>=-Tried m f first rest s works =
      let (works', settled) = first s works in
      elim (Result-cases (m s).0) [
        | inl (a, e) ↦ rw (e, ◌>>=◌) (rest a (m s).1 works')
        | inr (x, e) ↦ rw (e, ◌>>=◌) (works', rw e at settled)
      ]

module _ (P : Platform) (cfg : Settings) (log : List AuditEvent) where
  abbrev is_caught : ErrorClass → Bool
  is_caught c = is_instance c authentication_error

  known :
      (is_caught account_locked ≡ true)
      × (is_caught invalid_credentials ≡ true)
      × (is_caught email_verification_required ≡ true)
      × (is_caught invalid_refresh_token ≡ true)
      × (is_caught refresh_token_replay ≡ true)
  unfolding is_instance is_subclass_within base
  known = (refl, refl, refl, refl, refl)

  authenticate_user-Tried :
      (password : String) (now : ℕ) (u : User)
      → Tried is_caught log (authenticate_user P cfg password now u)
  unfolding authenticate_user set_user commit_session next_fault later_faults
  authenticate_user-Tried password now u s works = ground (arith, known)

  authenticate-Tried :
      (email password : String) → Tried is_caught log (authenticate P cfg email password)
  unfolding authenticate user_by_email
  authenticate-Tried email password s works =
      elim (Option-cases (find (λ u. has_text (P.lower (P.lower email)) u.email) s.db.users)) [
        | inl e ↦ ground (arith, e, known)
        | inr (u, e) ↦ ground (
          arith,
          e,
          authenticate_user-Tried password (P.now s.ticks) u (record s { ticks = suc s.ticks })
              works,
        )
      ]

  open_session-Tried :
      (id : ℕ) (given : Option ℕ) (metadata : Metadata)
      → Tried is_caught log (open_session P cfg id given metadata)
  unfolding open_session save_auth_session flush_session next_fault later_faults
  open_session-Tried id given metadata s works = ground arith

  sign_tokens-Tried :
      (u : User) (names : List String) (id : Option ℕ)
      → Tried is_caught log (sign_tokens P cfg u names id)
  unfolding sign_tokens save_refresh_token commit_session next_fault later_faults
      create_access_token
  sign_tokens-Tried u names id s works = ground arith

  issue_tokens-Tried :
      (u : User) (given : Option ℕ) (metadata : Metadata)
      → Tried is_caught log (issue_tokens P cfg u given metadata)
  unfolding issue_tokens roles
  issue_tokens-Tried u given metadata s =
      >>=-Tried is_caught log (open_session P cfg u.id given metadata)
        (sign_tokens P cfg u (role_names u.id s.db)) (open_session-Tried u.id given metadata)
        (sign_tokens-Tried u _) s

  refuse_token-Tried : (t : RefreshToken) (now : ℕ) → Tried is_caught log (refuse_token P cfg t now)
  unfolding refuse_token revoke_tokens revoke_tokens_where commit_session next_fault later_faults
  refuse_token-Tried t now s works = ground (arith, known)

  rotate_token-Tried : (t : RefreshToken) (now : ℕ) → Tried is_caught log (rotate_token P cfg t now)
  unfolding rotate_token revoke_tokens revoke_tokens_where commit_session user next_fault
      later_faults
  rotate_token-Tried t now s works =
      let revoked : Identity = revoke_tokens_where (λ t'. t'.family_id == t.family_id) now s.db in
      let after : Session Identity = record s {
        db = revoked;
        saved = revoked;
        faults = later_faults s.faults;
      } in
      elim (Option-cases (find (λ u. u.id == t.user_id) s.db.users)) [
        | inl e ↦ ground (arith, e, known)
        | inr (u, e) ↦ elim (Bool-cases (is_active u.status)) [
          | inl a ↦ ground (arith, e, a, issue_tokens-Tried u t.session_id no_metadata after)
          | inr a ↦ ground (arith, e, a, known)
        ]
      ]

  pub refresh-Tried : (raw : String) → Tried is_caught log (refresh P cfg raw)
  unfolding refresh refresh_token
  refresh-Tried raw s works =
      let read : Session Identity = record s { ticks = suc s.ticks } in
      elim (Option-cases (find (λ t. str_eq t.token_hash (P.sha256 raw)) s.db.refresh_tokens)) [
        | inl e ↦ ground (arith, e, known)
        | inr (t, e) ↦ ground (
          arith,
          e,
          refuse_token-Tried t (P.now s.ticks) read works,
          rotate_token-Tried t (P.now s.ticks) read works,
        )
      ]

  pub sign_in-Tried :
      (request : ClientRequest) (email password : String)
      → Tried is_caught log (sign_in P cfg request email password)
  unfolding sign_in
  sign_in-Tried request email password =
      let finish : User → String × String → Action Identity (User × String × String) =
        λ u tokens. pure (u, tokens.0, tokens.1) in
      let issue : User → Action Identity (String × String) =
        λ u. issue_tokens P cfg u none (metadata_of request) in
      >>=-Tried is_caught log (authenticate P cfg email password) (λ u. issue u >>= finish u)
        (authenticate-Tried email password)
        (λ u.
          >>=-Tried is_caught log (issue u) (finish u)
            (issue_tokens-Tried u none (metadata_of request)) (λ tokens s works. (works, refl)))
