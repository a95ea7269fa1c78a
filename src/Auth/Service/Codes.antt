-- ===== src/Auth/Service/Codes.antt =====
-- domain/auth/service.py (app): one-time codes, for the verification of an email address and for
-- a new password.
use job_finder_agent.Common.{
  ℕ, ◌+◌, Option, none, some, String, ◌==◌, leb, if◌then◌else◌, update_where,
}
use job_finder_agent.Errors.Exceptions.{feature_not_available, invalid_verification_code}
use job_finder_agent.Session.{Action, ◌>>=◌, ◌>>◌, pure, fail, modify, draw, commit_session}
use job_finder_agent.Auth.Models.{
  User, VerificationCode, Purpose, email_verification, password_reset, Identity, active,
}
use job_finder_agent.Auth.Platform.{Platform, Settings}
use job_finder_agent.Auth.Security.{minutes}
use job_finder_agent.Auth.Repository.{
  user_by_email, verification_code, save_verification_code, revoke_user_tokens, set_user,
}

-- `record.consumed_at = now`, with the changes of the user's row.
unfoldable pub consume_code : ℕ → ℕ → Identity → Identity
consume_code id now d = record d {
  verification_codes =
      update_where (λ c. c.id == id) (λ c. record c { consumed_at = some now })
        d.verification_codes;
}

module _ (P : Platform) (cfg : Settings) where
  unfoldable pub issue_code : String → Purpose → Action Identity (Option String)
  issue_code email purpose = do
    found ← user_by_email P (P.lower email)
    elim found [
      | none ↦ pure none
      | some u ↦ (do
        code ← draw P.otp
        now ← draw P.now
        id ← draw P.uuid4
        save_verification_code (record {
          id = id;
          user_id = u.id;
          purpose = purpose;
          code_hash = P.sha256 code;
          expires_at = now + minutes cfg.auth_otp_expire_minutes;
          consumed_at = none;
        })
        pure (some code))
    ]

  -- The user and the unconsumed, unexpired code that `verify_email` and `reset_password` look for.
  unfoldable pub valid_code : String → String → Purpose → Action Identity (User × VerificationCode)
  valid_code email code purpose = do
    found ← user_by_email P (P.lower email)
    elim found [
      | none ↦ fail invalid_verification_code
      | some u ↦ (do
        issued ← verification_code u.id purpose (P.sha256 code)
        elim issued [
          | none ↦ fail invalid_verification_code
          | some c ↦ (do
            now ← draw P.now
            if leb c.expires_at now then fail invalid_verification_code else pure (u, c))
        ])
    ]

  unfoldable pub verify_email : String → String → Action Identity (Unit {0})
  unfolding valid_code consume_code set_user
  verify_email email code =
      if cfg.auth_email_verification_enabled
      then (do
        (u, c) ← valid_code email code email_verification
        consumed ← draw P.now
        modify (consume_code c.id consumed)
        verified ← draw P.now
        modify
            (set_user u.id (λ x. record x { email_verified_at = some verified; status = active }))
        commit_session)
      else fail feature_not_available

  unfoldable pub reset_password : String → String → String → Action Identity (Unit {0})
  unfolding valid_code consume_code set_user
  reset_password email code password =
      if cfg.auth_password_reset_enabled
      then (do
        (u, c) ← valid_code email code password_reset
        consumed ← draw P.now
        modify (consume_code c.id consumed)
        hashed ← draw (λ t. P.hash_password t password)
        modify (set_user u.id (λ x. record x { password_hash = some hashed }))
        now ← draw P.now
        revoke_user_tokens u.id now)
      else fail feature_not_available
