-- ===== src/Api/Recorded.antt =====
-- The trail that `login` and `refresh` of api/v1/auth.py leave (app).
use job_finder_agent.Common.{
  suc, ◌≡◌, ◌⊎◌, refl, ◌∙◌, ap, inl, inr, Bool, true, false, List, [], ◌∷◌, String, arith, add,
}
use job_finder_agent.Errors.Exceptions.{ErrorClass, class_message, authentication_error}
use job_finder_agent.Errors.Classes.{is_instance}
use job_finder_agent.Session.{
  Session, Action, Result, Exception, ok, raise, app, other, ◌>>=◌, ◌>>◌, pure, Result-cases,
  commit_session, flush_session, refresh_session, next_fault, later_faults,
}
use job_finder_agent.Auth.Models.{AuditEvent, Identity}
use job_finder_agent.Auth.Platform.{Platform, Settings}
use job_finder_agent.Auth.Service.{refresh}
use job_finder_agent.Audit.Log.{Entry, event_of, record_event, create_event}
use job_finder_agent.Api.Responses.{ClientRequest, success_response}
use job_finder_agent.Api.Audited.{
  reraising, record_audit, failure_entry, success_entry, success_entry_by, context_of,
}
use job_finder_agent.Api.Accounts.{login, sign_in, refresh_endpoint, token_response}
use job_finder_agent.Api.Trail.{Works, Tried, is_settled, sign_in-Tried, refresh-Tried}

-- One event more is saved, and it says what happened: a success for a result, and a failure with
-- the message of what was raised.
abbrev pub IsRecorded :
    {A : Type 0} → String → String → List AuditEvent → Result A × Session Identity → Type 0
IsRecorded {A} done refused log (r, s') =
    (event : AuditEvent) × (s'.saved.audit_events ≡ add event log)
    × ((event.success ≡ true) × (event.action ≡ done) × ((a : A) × (r ≡ ok a))
        ⊎ (event.success ≡ false)
          × (event.action ≡ refused)
          × ((c : ErrorClass) × (r ≡ raise (app c))
              × (is_instance c authentication_error ≡ true)
              × (event.event_metadata ≡ ("reason", class_message c) ∷ [])))

settled_raise :
    (caught : ErrorClass → Bool) (x : Exception)
    → is_settled {A = Unit {0}} caught (raise x) ≡ true
    → (c : ErrorClass) × (x ≡ app c) × (caught c ≡ true)
settled_raise caught (app c) known = (c, refl, known)
settled_raise caught (other text) known = cc

module _ (P : Platform) (request : ClientRequest) (log : List AuditEvent) where
  record_audit-saved :
      (e : Entry) (s : Session Identity)
      → Works log s
      → let (r, s') = record_audit P request e s in
        (r ≡ ok tt)
        × (s'.saved.audit_events
            ≡ add (event_of (P.uuid4 s.ticks) (P.now (suc s.ticks)) e (context_of request)) log)
  unfolding record_audit record_event create_event commit_session refresh_session flush_session
      next_fault later_faults
  record_audit-saved e s works = ground arith

  module _ {A B : Type 0} (m : Action Identity A) (done refused kind : String) (entry : A → Entry)
      (answer : A → B) where
    abbrev is_caught : ErrorClass → Bool
    is_caught c = is_instance c authentication_error

    -- What `login` and `refresh` have in common.
    abbrev pub audited : Action Identity B
    audited = do
      a ← reraising is_caught m (λ c. record_audit P request (failure_entry refused kind c))
      record_audit P request (entry a)
      pure (answer a)

    module _ (s : Session Identity) (works : Works log (m s).1) where
      audited-ok :
          (a : A)
          → (m s).0 ≡ ok a
          → audited s ≡ (ok (answer a), (record_audit P request (entry a) (m s).1).1)
      unfolding reraising
      audited-ok a e = ground (arith, e, (record_audit-saved (entry a) (m s).1 works).0)

      audited-raise :
          (c : ErrorClass)
          → (m s).0 ≡ raise (app c)
          → is_caught c ≡ true
          → audited s
            ≡ (raise (app c), (record_audit P request (failure_entry refused kind c) (m s).1).1)
      unfolding reraising
      audited-raise c e known =
          ground
            (arith, e, known, (record_audit-saved (failure_entry refused kind c) (m s).1 works).0)

    -- Whatever is tried, one event tells of it.
    pub audited-IsRecorded :
        (s : Session Identity)
        → Works log s
        → Tried is_caught log m
        → ((a : A) → ((entry a).action ≡ done) × ((entry a).success ≡ true))
        → IsRecorded done refused log (audited s)
    audited-IsRecorded s works tried tells =
        let (works', settled) = tried s works in
        elim (Result-cases (m s).0) [
          | inl (a, e) ↦ rw (audited-ok s works' a e) (
            event_of _ _ (entry a) (context_of request),
            (record_audit-saved (entry a) (m s).1 works').1,
            inl ((tells a).1, (tells a).0, (answer a, refl)),
          )
          | inr (x, e) ↦
              let (c, is_app, known) = settled_raise is_caught x (rw e at settled) in
              rw (audited-raise s works' c (e ∙ ap (λ y. raise y) is_app) known) (
                event_of _ _ (failure_entry refused kind c) (context_of request),
                (record_audit-saved (failure_entry refused kind c) (m s).1 works').1,
                inr (refl, refl, (c, refl, known, refl)),
              )
        ]

module _ (P : Platform) (cfg : Settings) (request : ClientRequest) where
  -- While the database works, one sign-in leaves exactly one event in the saved trail: a success if
  -- tokens are returned, and if an authentication error is raised, a failure with its message. Nothing
  -- else is raised.
  pub login-IsRecorded :
      (email password : String) (s : Session Identity)
      → s.faults ≡ []
      → IsRecorded "user.logged_in" "user.login.failed" s.db.audit_events
          (login P cfg request email password s)
  unfolding login
  login-IsRecorded email password s works =
      audited-IsRecorded P request s.db.audit_events (sign_in P cfg request email password)
        "user.logged_in" "user.login.failed" "user"
        (λ found. success_entry_by P found.0.id "user.logged_in")
        (λ found. success_response (token_response found.1 found.2) request) s (works, refl)
        (sign_in-Tried P cfg s.db.audit_events request email password) (λ a. (refl, refl))

  -- While the database works, one exchange of a refresh token leaves exactly one event in the saved
  -- trail: a success if new tokens are returned, and if an authentication error is raised, as for a
  -- token that is used again, a failure with its message. Nothing else is raised.
  pub refresh_endpoint-IsRecorded :
      (token : String) (s : Session Identity)
      → s.faults ≡ []
      → IsRecorded "auth.token.refreshed" "auth.token.refresh_failed" s.db.audit_events
          (refresh_endpoint P cfg request token s)
  unfolding refresh_endpoint
  refresh_endpoint-IsRecorded token s works =
      audited-IsRecorded P request s.db.audit_events (refresh P cfg token) "auth.token.refreshed"
        "auth.token.refresh_failed" "refresh_token"
        (λ tokens. success_entry "auth.token.refreshed" "refresh_token" [])
        (λ tokens. success_response (token_response tokens.0 tokens.1) request) s (works, refl)
        (refresh-Tried P cfg s.db.audit_events token) (λ a. (refl, refl))
