-- ===== src/Auth/Passwords.antt =====
-- What a password reset does.
use job_finder_agent.Common.{
  ℕ, suc, ◌≡◌, ◌≢◌, refl, true, false, ◌&&◌, Option, none, some, String, str_eq, arith, is_none,
  is_some, leb, find, ◌==◌, All, All-update_where, Option-cases, inl, inr,
}
use job_finder_agent.Session.{Session, ok, commit_session}
use job_finder_agent.Auth.Models.{User, Identity, VerificationCode, password_reset}
use job_finder_agent.Auth.Platform.{Platform, Settings}
use job_finder_agent.Auth.Repository.{
  set_user, revoke_tokens_where, revoke_auth_sessions_where, revoke_user_tokens, user_by_email,
  verification_code, same_purpose,
}
use job_finder_agent.Auth.Service.{reset_password, consume_code}
use job_finder_agent.Auth.Lockout.{account, account-set_user}

-- Every refresh token and every session of the user is revoked.
abbrev pub SignedOut : ℕ → Identity → Type 0
SignedOut user_id d =
    All (λ t. (t.user_id == user_id) ≡ true → is_some t.revoked_at ≡ true) d.refresh_tokens
    × All (λ a. (a.user_id == user_id) ≡ true → is_some a.revoked_at ≡ true) d.auth_sessions

-- The code with the identifier is consumed.
abbrev pub IsConsumed : ℕ → Identity → Type 0
IsConsumed id d = All (λ c. (c.id == id) ≡ true → is_some c.consumed_at ≡ true) d.verification_codes

abbrev revoke_all : ℕ → ℕ → Identity → Identity
revoke_all user_id now d =
    revoke_auth_sessions_where (λ a. (a.user_id == user_id) && is_none a.revoked_at) now
      (revoke_tokens_where (λ t. t.user_id == user_id) now d)

revoke_all-SignedOut :
    (user_id now : ℕ) (d : Identity) → SignedOut user_id (revoke_all user_id now d)
unfolding revoke_auth_sessions_where revoke_tokens_where
revoke_all-SignedOut user_id now d = (
  All-update_where _ _ _ d.refresh_tokens (λ t. ground arith),
  All-update_where _ _ _ d.auth_sessions (λ a. ground arith),
)

module _ (P : Platform) (cfg : Settings) where
  -- The row of the code that `reset_password` accepts.
  abbrev pub reset_code : ℕ → String → Identity → Option VerificationCode
  reset_code user_id code d =
      find
        (λ x.
          (x.user_id == user_id)
          && same_purpose x.purpose password_reset
          && str_eq x.code_hash (P.sha256 code)
          && is_none x.consumed_at)
        d.verification_codes

  -- What a reset leaves, once the user and the code are known.
  abbrev with_password : String → Session Identity → User → User
  with_password password s u = record u {
    password_hash = some (P.hash_password (suc (suc s.ticks)) password);
  }

  abbrev left : String → Session Identity → User → VerificationCode → Identity
  left password s u c =
      revoke_all u.id (P.now (suc (suc (suc s.ticks))))
        (set_user u.id (with_password password s) (consume_code c.id (P.now (suc s.ticks)) s.db))

  account-left :
      (email password : String) (s : Session Identity) (u : User) (c : VerificationCode)
      → account P cfg email s.db ≡ some u
      → account P cfg email (left password s u c) ≡ some (with_password password s u)
  unfolding revoke_auth_sessions_where revoke_tokens_where consume_code
  account-left email password s u c h =
      account-set_user P cfg email (with_password password s)
        (consume_code c.id (P.now (suc s.ticks)) s.db) u (λ x. refl) h

  left-IsConsumed :
      (password : String) (s : Session Identity) (u : User) (c : VerificationCode)
      → IsConsumed c.id (left password s u c)
  unfolding revoke_auth_sessions_where revoke_tokens_where consume_code set_user
  left-IsConsumed password s u c =
      All-update_where _ _ _ s.db.verification_codes (λ x. ground arith)

  reset_password-inv :
      (email code password : String) (s : Session Identity) (u : User) (c : VerificationCode)
      → account P cfg email s.db ≡ some u
      → reset_code u.id code s.db ≡ some c
      → (reset_password P cfg email code password s).0 ≡ ok tt
      → (leb c.expires_at (P.now s.ticks) ≡ false)
        × ((reset_password P cfg email code password s).1.saved ≡ left password s u c)
  unfolding reset_password user_by_email verification_code revoke_user_tokens commit_session
  reset_password-inv email code password s u c found issued h = ground arith

  reset_password-code :
      (email code password : String) (s : Session Identity) (u : User)
      → account P cfg email s.db ≡ some u
      → reset_code u.id code s.db ≡ none
      → (reset_password P cfg email code password s).0 ≢ ok tt
  unfolding reset_password user_by_email verification_code
  reset_password-code email code password s u found absent = ground arith

  -- A reset that returns for a user accepted a code that was issued to the user, was not consumed
  -- and had not expired. In what is saved this code is consumed, the new password is the user's, and
  -- every refresh token and every session of the user is revoked. This is where a password's hash verifies.
  pub reset_password-SignedOut :
      (verifies : (t : ℕ) (p : String) → P.verify_password p (P.hash_password t p) ≡ true)
      → (email code password : String) (s : Session Identity) (u : User)
      → account P cfg email s.db ≡ some u
      → (reset_password P cfg email code password s).0 ≡ ok tt
      → let saved = (reset_password P cfg email code password s).1.saved in
        (c : VerificationCode) × (hash : String) × (reset_code u.id code s.db ≡ some c)
        × (leb c.expires_at (P.now s.ticks) ≡ false)
        × (account P cfg email saved ≡ some (record u { password_hash = some hash }))
        × (P.verify_password password hash ≡ true)
        × IsConsumed c.id saved
        × SignedOut u.id saved
  reset_password-SignedOut verifies email code password s u found h =
      elim (Option-cases (reset_code u.id code s.db)) [
        | inl e ↦ absurd (reset_password-code email code password s u found e h)
        | inr (c, e) ↦
            let (fresh, saved) = reset_password-inv email code password s u c found e h in
            (
              c,
              P.hash_password (suc (suc s.ticks)) password,
              e,
              fresh,
              rw saved (account-left email password s u c found),
              verifies (suc (suc s.ticks)) password,
              rw saved (left-IsConsumed password s u c),
              rw saved (revoke_all-SignedOut u.id (P.now (suc (suc (suc s.ticks)))) _),
            )
      ]
