-- ===== src/Api/Logout.antt =====
-- Sign-out: `logout` of api/v1/auth.py (app), and what is left of the token.
use job_finder_agent.Common.{
  ℕ, suc, ◌≡◌, ◌≢◌, ◌⊎◌, refl, inl, inr, Bool, true, false, ◌&&◌, Option, none, some, String, arith,
  is_none, is_some, find, find-update_where, ◌==◌, All-update_where_of, Option-cases, Bool-cases,
}
use job_finder_agent.Session.{Session, ok, Result-cases, commit_session, ◌>>=◌, pure}
use job_finder_agent.Session.Rules.{OnReturn, >>=-OnReturn}
use job_finder_agent.Auth.Models.{Identity, RefreshToken}
use job_finder_agent.Auth.Platform.{Platform, Settings}
use job_finder_agent.Auth.Repository.{
  revoke_tokens_where, revoke_auth_sessions_where, revoke_token, refresh_token, revoke_tokens,
  revoke_auth_session, auth_session, has_id,
}
use job_finder_agent.Auth.Service.{refresh}
use job_finder_agent.Auth.Rotation.{
  FamilyRevoked, revoke_tokens_where-FamilyRevoked, has_hash, stored, refresh_refuses,
}
use job_finder_agent.Auth.Sessions.{session_row}
use job_finder_agent.Api.Sessions.{logout, end_session}

-- A row is there, and it is revoked.
abbrev is_dead : Option RefreshToken → Bool
is_dead none = false
is_dead (some t) = is_some t.revoked_at

module _ (hash : String) (family : ℕ) where
  -- The family is revoked, and the row of the token is there and revoked.
  abbrev pub Ended : Identity → Type 0
  Ended d =
      FamilyRevoked family d.refresh_tokens
      × (is_dead (find (has_hash hash) d.refresh_tokens) ≡ true)

  revoke_tokens_where-Ended :
      (p : RefreshToken → Bool) (now : ℕ) (d : Identity)
      → Ended d
      → Ended (revoke_tokens_where p now d)
  unfolding revoke_tokens_where
  revoke_tokens_where-Ended p now d (all_revoked, dead) = (
    All-update_where_of _ _ _ d.refresh_tokens (λ t h. ground (arith, h)) all_revoked,
    rw
        (find-update_where (has_hash hash) (λ t. p t && is_none t.revoked_at) (revoke_token now)
          d.refresh_tokens (λ x. refl))
        (elim (Option-cases (find (has_hash hash) d.refresh_tokens)) [
          | inl e ↦ ground (arith, e)
          | inr (t, e) ↦ ground (arith, e)
        ]),
  )

  abbrev EndedSession : Session Identity → Type 0
  EndedSession s = Ended s.db

  module _ (session_id user_id now : ℕ) where
    revoke_auth_session-tokens :
        (s : Session Identity) (done : Bool)
        → (revoke_auth_session session_id user_id now s).0 ≡ ok done
        → let tokens' = (revoke_auth_session session_id user_id now s).1.db.refresh_tokens in
          (tokens' ≡ s.db.refresh_tokens)
          ⊎ (tokens'
              ≡ (revoke_tokens_where (λ t. has_id session_id t.session_id) now s.db).refresh_tokens)
    unfolding revoke_auth_session auth_session revoke_auth_sessions_where commit_session
        revoke_tokens_where
    revoke_auth_session-tokens s done h =
        elim (Option-cases (session_row session_id user_id s.db)) [
          | inl e ↦ ground (arith, e)
          | inr (a, e) ↦ ground (arith, e)
        ]

    revoke_auth_session-Ended : OnReturn EndedSession (revoke_auth_session session_id user_id now)
    revoke_auth_session-Ended s ended done h = elim (revoke_auth_session-tokens s done h) [
      | inl e ↦ rw e ended
      | inr e ↦
          rw e (revoke_tokens_where-Ended (λ t. has_id session_id t.session_id) now s.db ended)
    ]

  end_session-Ended :
      (P : Platform) (cfg : Settings) (t : RefreshToken)
      → OnReturn EndedSession (end_session P cfg t)
  unfolding end_session
  end_session-Ended P cfg t s ended a h = elim (Bool-cases cfg.auth_session_management_enabled) [
    | inr off ↦ ground (arith, off, ended)
    | inl managed ↦ elim (Option-cases t.session_id) [
      | inl e ↦ ground (arith, managed, e, ended)
      | inr (id, e) ↦
          rw (managed, e, end_session)
            (>>=-OnReturn EndedSession (revoke_auth_session id t.user_id (P.now s.ticks))
              (λ done. pure tt) (revoke_auth_session-Ended id t.user_id (P.now s.ticks))
              (λ done left ended' b k. ended') (record s { ticks = suc s.ticks }) ended a
              (rw (managed, e, end_session) at h))
    ]
  ]

commit_session-ok :
    (s : Session Identity)
    → (commit_session s).0 ≡ ok tt
    → let s' = (commit_session s).1 in (s'.db ≡ s.db) × (s'.saved ≡ s.db)
unfolding commit_session
commit_session-ok s h = ground arith

module _ (P : Platform) (cfg : Settings) (raw : String) (s : Session Identity) where
  -- The session when the family is revoked.
  abbrev after : RefreshToken → Session Identity
  after t = record s {
    db = revoke_tokens_where (λ t'. t'.family_id == t.family_id) (P.now s.ticks) s.db;
    ticks = suc s.ticks;
  }

  logout_known :
      (t : RefreshToken)
      → stored P cfg raw s.db ≡ some t
      → logout P cfg raw s ≡ (end_session P cfg t >>= λ done. commit_session) (after t)
  unfolding logout refresh_token revoke_tokens
  logout_known t found = ground (arith, found)

  after-Ended :
      (t : RefreshToken)
      → stored P cfg raw s.db ≡ some t
      → Ended (P.sha256 raw) t.family_id (after t).db
  unfolding revoke_tokens_where
  after-Ended t found = (
    revoke_tokens_where-FamilyRevoked t.family_id (P.now s.ticks) s.db,
    rw
        (
          find-update_where (has_hash (P.sha256 raw))
              (λ t'. (t'.family_id == t.family_id) && is_none t'.revoked_at)
              (revoke_token (P.now s.ticks)) s.db.refresh_tokens (λ x. refl),
          found,
        )
        (ground arith),
  )

  ends :
      (t : RefreshToken)
      → stored P cfg raw s.db ≡ some t
      → (logout P cfg raw s).0 ≡ ok tt
      → let s' = (logout P cfg raw s).1 in
        (s'.saved ≡ s'.db) × Ended (P.sha256 raw) t.family_id s'.db
  ends t found h =
      let m = end_session P cfg t in
      rw (logout_known t found, ◌>>=◌)
        (elim (Result-cases (m (after t)).0) [
          | inl (a, e) ↦
              let (same, saved) =
                commit_session-ok (m (after t)).1 (rw (logout_known t found, e, ◌>>=◌) at h) in
              rw (e, ◌>>=◌, same)
                (
                  saved,
                  end_session-Ended (P.sha256 raw) t.family_id P cfg t (after t)
                      (after-Ended t found) a e,
                )
          | inr (x, e) ↦ cc (rw (logout_known t found, e, ◌>>=◌) at h)
        ])

  never :
      (later : Session Identity) (tokens : String × String)
      → is_dead (stored P cfg raw later.db) ≡ true
      → (refresh P cfg raw later).0 ≢ ok tokens
  never later tokens dead = elim (Option-cases (stored P cfg raw later.db)) [
    | inl e ↦ cc (rw e at dead)
    | inr (t, e) ↦ refresh_refuses P cfg raw t later tokens e (ground (arith, rw e at dead))
  ]

  -- Signing out with a known token ends the whole family of the token in what is saved, if it returns,
  -- and the token is never exchanged again, in any later session that finds the row which the sign-out
  -- left.
  pub logout-refresh :
      (t : RefreshToken) (later : Session Identity) (tokens : String × String)
      → stored P cfg raw s.db ≡ some t
      → (logout P cfg raw s).0 ≡ ok tt
      → stored P cfg raw later.db ≡ stored P cfg raw (logout P cfg raw s).1.db
      → FamilyRevoked t.family_id (logout P cfg raw s).1.saved.refresh_tokens
        × ((refresh P cfg raw later).0 ≢ ok tokens)
  logout-refresh t later tokens found h row =
      let (same, ended) = ends t found h in (rw same ended.0, never later tokens (rw row ended.1))
