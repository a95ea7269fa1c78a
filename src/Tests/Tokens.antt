-- ===== src/Tests/Tokens.antt =====
-- Refresh tokens, sessions and a password reset for one user.
use job_finder_agent.Common.{
  ℕ, any, ◌+◌, ◌<◌, ◌≡◌, ◌≢◌, refl, true, false, some, [], ◌∷◌, String, str_eq, find, leb, eq_refl,
  length,
}
use job_finder_agent.Errors.Exceptions.{refresh_token_replay, session_revoked}
use job_finder_agent.Session.{Session, ok, raise, app, commit_session, next_fault, later_faults}
use job_finder_agent.Auth.Models.{Identity, RefreshToken, AuthSession, VerificationCode}
use job_finder_agent.Auth.Platform.{Decoded}
use job_finder_agent.Auth.Repository.{
  revoke_other_auth_sessions, revoke_user_tokens, user_by_email, refresh_token, revoke_tokens, user,
  save_refresh_token, roles, verification_code, revoke_auth_session,
}
use job_finder_agent.Auth.Security.{create_access_token, decode_access_token}
use job_finder_agent.Auth.Service.{
  refresh, rotate_token, issue_tokens, sign_tokens, open_session, revoke_session,
  revoke_other_sessions, reset_password,
}
use job_finder_agent.Auth.Access.{user_of_token, token_ids}
use job_finder_agent.Auth.Rotation.{FamilyRevoked, stored, refresh_once}
use job_finder_agent.Auth.Replays.{is_live, other_families, refresh_replay}
use job_finder_agent.Auth.Sessions.{
  SessionTokensRevoked, OnlyCurrent, others, revoke_session-user_of_token,
  revoke_other_sessions-OnlyCurrent,
}
use job_finder_agent.Auth.Passwords.{SignedOut, IsConsumed, reset_code, reset_password-SignedOut}
use job_finder_agent.Auth.Lockout.{account}
use job_finder_agent.Tests.Accounts.{platform, settings, ada, token, browser, identity, session}

abbrev start : Session Identity
start = session (identity ada token)

refresh_once_example :
    (refresh platform settings "old" (refresh platform settings "old" start).1).0
    ≢ ok ("access", "again")
unfolding refresh refresh_token find rotate_token revoke_tokens commit_session next_fault user
    issue_tokens roles open_session sign_tokens save_refresh_token later_faults create_access_token
refresh_once_example =
    refresh_once platform settings "old" start (refresh platform settings "old" start).1
      ("access", "new") ("access", "again") refl refl

refresh_replay_example :
    let s1 = (refresh platform settings "old" start).1 in
    let (r, s2) = refresh platform settings "old" s1 in
    (t : RefreshToken) × (stored platform settings "old" s1.db ≡ some t)
    × (r ≡ raise (app refresh_token_replay))
    × FamilyRevoked t.family_id s2.saved.refresh_tokens
    × (other_families t.family_id s2.saved ≡ other_families t.family_id s1.db)
    × ((n : ℕ) × (any (is_live platform settings "new" (n + 100)) s1.db.refresh_tokens ≡ true))
unfolding refresh refresh_token find rotate_token revoke_tokens commit_session next_fault user
    issue_tokens roles open_session sign_tokens save_refresh_token later_faults create_access_token
refresh_replay_example = refresh_replay platform settings "old" start ("access", "new") refl refl

abbrev browser_claims : Decoded
browser_claims = record { type = some "access"; sub = some "user"; sid = some "session" }

revoke_session-user_of_token_example :
    let s' = (revoke_session platform settings 1 2 start).1 in
    ((user_of_token platform settings "access" s').0 ≡ raise (app session_revoked))
    × SessionTokensRevoked 2 s'.saved
unfolding revoke_session revoke_auth_session find commit_session next_fault decode_access_token
    token_ids
revoke_session-user_of_token_example =
    revoke_session-user_of_token platform settings 1 2 start
      (revoke_session platform settings 1 2 start).1 "access" browser_claims refl refl refl refl
      refl

abbrev phone : AuthSession
phone = record browser { id = 4 }

abbrev two_sessions : Session Identity
two_sessions = session (record (identity ada token) { auth_sessions = browser ∷ phone ∷ [] })

revoke_other_sessions-OnlyCurrent_example :
    let s' = (revoke_other_sessions platform settings 1 (some 2) two_sessions).1 in
    OnlyCurrent 1 2 s'.db.auth_sessions
    × (1 ≡ length (others 1 2 two_sessions.db.auth_sessions))
    × (0 < 1 → s'.saved ≡ s'.db)
unfolding revoke_other_sessions revoke_other_auth_sessions commit_session next_fault
revoke_other_sessions-OnlyCurrent_example =
    revoke_other_sessions-OnlyCurrent platform settings 1 2 1 two_sessions refl

reset_password-SignedOut_example :
    let saved =
      (reset_password platform settings "ada@example.org" "123456" "word" start).1.saved in
    (c : VerificationCode) × (hash : String) × (reset_code platform settings 1 "123456" start.db
      ≡ some c)
    × (leb c.expires_at 10 ≡ false)
    × (account platform settings "ada@example.org" saved
        ≡ some (record ada { password_hash = some hash }))
    × (str_eq "word" hash ≡ true)
    × IsConsumed c.id saved
    × SignedOut 1 saved
unfolding reset_password find user_by_email verification_code revoke_user_tokens commit_session
    next_fault
reset_password-SignedOut_example =
    reset_password-SignedOut platform settings (λ t p. eq_refl p) "ada@example.org" "123456" "word"
      start ada refl refl
