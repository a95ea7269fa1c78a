-- ===== src/Api/Reset.antt =====
-- What a request for a password reset tells: `request_password_reset` of api/v1/auth.py (app).
use job_finder_agent.Common.{◌≡◌, sym, ◌∙◌, inl, inr, [], String, arith, find, Option-cases}
use job_finder_agent.Session.{
  Session, ok, commit_session, flush_session, refresh_session, next_fault, later_faults,
}
use job_finder_agent.Auth.Models.{Identity}
use job_finder_agent.Auth.Platform.{Platform, Settings}
use job_finder_agent.Auth.Repository.{user_by_email, has_text, save_verification_code}
use job_finder_agent.Auth.Service.{issue_code}
use job_finder_agent.Audit.Log.{record_event, create_event}
use job_finder_agent.Api.Responses.{ClientRequest, success_response}
use job_finder_agent.Api.Audited.{record_audit}
use job_finder_agent.Api.Accounts.{request_password_reset, reset_message}

module _ (P : Platform) (cfg : Settings) (request : ClientRequest) where
  answers :
      (email : String) (s : Session Identity)
      → s.faults ≡ []
      → let (r, s') = request_password_reset P cfg request email s in
        (r ≡ ok (success_response reset_message request))
        × (s'.saved.users ≡ s.db.users)
        × (s'.saved.refresh_tokens ≡ s.db.refresh_tokens)
        × (s'.saved.auth_sessions ≡ s.db.auth_sessions)
  unfolding request_password_reset issue_code user_by_email save_verification_code record_audit
      record_event create_event commit_session refresh_session flush_session next_fault later_faults
  answers email s works =
      elim (Option-cases (find (λ u. has_text (P.lower (P.lower email)) u.email) s.db.users)) [
        | inl e ↦ ground (arith, e, works)
        | inr (u, e) ↦ ground (arith, e, works)
      ]

  -- While the database works, a request for a password reset is answered alike for every address, in
  -- every state: the answer tells nothing of whether there is an account. It changes no user, no refresh
  -- token and no session.
  pub request_password_reset-same :
      (email email' : String) (s t : Session Identity)
      → s.faults ≡ []
      → t.faults ≡ []
      → let (r, s') = request_password_reset P cfg request email s in
        (r ≡ (request_password_reset P cfg request email' t).0)
        × (s'.saved.users ≡ s.db.users)
        × (s'.saved.refresh_tokens ≡ s.db.refresh_tokens)
        × (s'.saved.auth_sessions ≡ s.db.auth_sessions)
  request_password_reset-same email email' s t works works' =
      let (r, users, tokens, sessions) = answers email s works in
      (r ∙ sym (answers email' t works').0, users, tokens, sessions)
