-- ===== src/Auth/Sessions.antt =====
-- What the end of a session ends.
use job_finder_agent.Common.{
  ℕ, suc, ◌<◌, ◌≡◌, refl, sym, subst, Bool, true, false, ◌&&◌, not, Option, none, some, List, [],
  ◌∷◌, String, str_eq, arith, is_none, is_some, if◌then◌else◌, find, find-update_where, ◌==◌, All,
  All-update_where, All-update_where_of, Bool-cases, Option-cases, inl, inr, any, filter_by, length,
}
use job_finder_agent.Errors.Exceptions.{session_revoked}
use job_finder_agent.Session.{Session, ok, raise, app, commit_session}
use job_finder_agent.Auth.Models.{Identity, RefreshToken, AuthSession}
use job_finder_agent.Auth.Platform.{Platform, Settings, Decoded}
use job_finder_agent.Auth.Security.{decode_access_token}
use job_finder_agent.Auth.Repository.{
  revoke_tokens_where, revoke_auth_sessions_where, revoke_token, revoke_auth, auth_session,
  revoke_auth_session, revoke_other_auth_sessions, user, has_id, differs, is_other,
}
use job_finder_agent.Auth.Service.{revoke_session, revoke_other_sessions}
use job_finder_agent.Auth.Access.{require_session, user_of_token, token_ids}

-- Every token of the session is revoked.
abbrev pub SessionTokensRevoked : ℕ → Identity → Type 0
SessionTokensRevoked id d =
    All (λ t. has_id id t.session_id ≡ true → is_some t.revoked_at ≡ true) d.refresh_tokens

revoke_tokens_where-SessionTokensRevoked :
    (id now : ℕ) (d : Identity)
    → SessionTokensRevoked id (revoke_tokens_where (λ t. has_id id t.session_id) now d)
unfolding revoke_tokens_where
revoke_tokens_where-SessionTokensRevoked id now d =
    All-update_where _ _ _ d.refresh_tokens (λ t. ground arith)

-- The row that a session of a user is looked up by.
abbrev pub session_row : ℕ → ℕ → Identity → Option AuthSession
session_row id user_id d = find (λ a. (a.id == id) && (a.user_id == user_id)) d.auth_sessions

-- No session is there, or it is revoked.
abbrev pub is_ended : Option AuthSession → Bool
is_ended none = true
is_ended (some a) = is_some a.revoked_at

module _ (P : Platform) (cfg : Settings) where
  -- A request with a token of a session that is revoked or gone is refused, where sessions are
  -- managed.
  pub user_of_token_revoked :
      (token : String) (c : Decoded) (user_id id : ℕ) (s : Session Identity)
      → cfg.auth_session_management_enabled ≡ true
      → decode_access_token P (P.now s.ticks) token cfg.jwt_secret_key cfg.jwt_issuer ≡ some c
      → token_ids P c ≡ some (user_id, some id)
      → is_ended (session_row id user_id s.db) ≡ true
      → (user_of_token P cfg token s).0 ≡ raise (app session_revoked)
  unfolding user_of_token user auth_session require_session
  user_of_token_revoked token c user_id id s managed decoded ids gone = ground arith

revoke_row :
    (id user_id now : ℕ) (a : AuthSession) (d : Identity)
    → session_row id user_id d ≡ some a
    → is_ended (session_row id user_id (revoke_auth_sessions_where (λ b. b.id == a.id) now d))
      ≡ true
unfolding revoke_auth_sessions_where
revoke_row id user_id now a d h =
    rw
      (
        find-update_where (λ b. (b.id == id) && (b.user_id == user_id)) (λ b. b.id == a.id)
            (revoke_auth now) d.auth_sessions (λ x. refl),
        h,
      )
      (ground arith)

revoke_auth_session_row :
    (id user_id now : ℕ) (s : Session Identity)
    → let (r, s') = revoke_auth_session id user_id now s in
      r ≡ ok true
      → (is_ended (session_row id user_id s'.db) ≡ true) × SessionTokensRevoked id s'.saved
unfolding revoke_auth_session commit_session revoke_tokens_where
revoke_auth_session_row id user_id now s h = elim (Option-cases (session_row id user_id s.db)) [
  | inl e ↦ ground (arith, e)
  | inr (a, e) ↦ ground (
    arith,
    e,
    revoke_row id user_id now a s.db e,
    revoke_tokens_where-SessionTokensRevoked id now
        (revoke_auth_sessions_where (λ b. b.id == a.id) now s.db),
  )
]

module _ (P : Platform) (cfg : Settings) where
  revoke_session-inv :
      (user_id id : ℕ) (s : Session Identity)
      → (revoke_session P cfg user_id id s).0 ≡ ok tt
      → let drawn : Session Identity = record s { ticks = suc s.ticks } in
        let (r, s') = revoke_auth_session id user_id (P.now s.ticks) drawn in
        (r ≡ ok true) × ((revoke_session P cfg user_id id s).1 ≡ s')
  unfolding revoke_session
  revoke_session-inv user_id id s h = ground arith

  -- Once a session is revoked, every refresh token of it is revoked in what is saved, and a request
  -- with an access token of it is refused, where sessions are managed, in every later session that
  -- finds the row which the revocation left.
  pub revoke_session-user_of_token :
      (user_id id : ℕ) (s later : Session Identity) (token : String) (c : Decoded)
      → cfg.auth_session_management_enabled ≡ true
      → (revoke_session P cfg user_id id s).0 ≡ ok tt
      → session_row id user_id later.db
        ≡ session_row id user_id (revoke_session P cfg user_id id s).1.db
      → decode_access_token P (P.now later.ticks) token cfg.jwt_secret_key cfg.jwt_issuer ≡ some c
      → token_ids P c ≡ some (user_id, some id)
      → ((user_of_token P cfg token later).0 ≡ raise (app session_revoked))
        × SessionTokensRevoked id (revoke_session P cfg user_id id s).1.saved
  revoke_session-user_of_token user_id id s later token c managed done same decoded ids =
      let drawn : Session Identity = record s { ticks = suc s.ticks } in
      let (returned, left) = revoke_session-inv user_id id s done in
      let (ended, tokens) = revoke_auth_session_row id user_id (P.now s.ticks) drawn returned in
      (
        user_of_token_revoked P cfg token c user_id id later managed decoded ids
            (rw (same, left) ended),
        rw left tokens,
      )

-- The sessions that `revoke_other_auth_sessions` ends.
unfoldable pub others : ℕ → ℕ → List AuthSession → List AuthSession
others user_id current rows =
    filter_by (is_other current)
      (filter_by (λ a. (a.user_id == user_id) && is_none a.revoked_at) rows)

-- No other session of the user is live.
abbrev pub OnlyCurrent : ℕ → ℕ → List AuthSession → Type 0
OnlyCurrent user_id current =
    All
      (λ a. (a.user_id == user_id) ≡ true → is_none a.revoked_at ≡ true → (a.id == current) ≡ true)

-- Every live row of another session has its id among the ids of the others.
abbrev Listed : ℕ → ℕ → List AuthSession → AuthSession → Type 0
Listed user_id current ids a =
    (a.user_id == user_id) ≡ true
    → is_none a.revoked_at ≡ true
    → (a.id == current) ≡ false
    → any (λ b. b.id == a.id) ids ≡ true

Listed-cons :
    (user_id current : ℕ) (x : AuthSession) (ids rows : List AuthSession)
    → All (Listed user_id current ids) rows
    → All (Listed user_id current (x ∷ ids)) rows
Listed-cons user_id current x ids [] h = tt
Listed-cons user_id current x ids (a ∷ rows) h =
    (λ u l o. ground (arith, h.0 u l o), Listed-cons user_id current x ids rows h.1)

others-cons :
    (user_id current : ℕ) (a : AuthSession) (rows : List AuthSession)
    → others user_id current (a ∷ rows) ≡ (
        if (a.user_id == user_id) && is_none a.revoked_at && not (a.id == current)
        then a ∷ others user_id current rows
        else others user_id current rows)
unfolding others
others-cons user_id current a rows = ground arith

Listed-if :
    (user_id current : ℕ) (a : AuthSession) (rest rows : List AuthSession) (b : Bool)
    → ((a.user_id == user_id) && is_none a.revoked_at && not (a.id == current)) ≡ b
    → All (Listed user_id current rest) rows
    → All (Listed user_id current (if b then a ∷ rest else rest)) (a ∷ rows)
Listed-if user_id current a rest rows true e listed =
    (λ u l o. ground arith, Listed-cons user_id current a rest rows listed)
Listed-if user_id current a rest rows false e listed = (λ u l o. ground arith, listed)

others-Listed :
    (user_id current : ℕ) (rows : List AuthSession)
    → All (Listed user_id current (others user_id current rows)) rows
others-Listed user_id current [] = tt
others-Listed user_id current (a ∷ rows) =
    subst (λ ids. All (Listed user_id current ids) (a ∷ rows))
      (sym (others-cons user_id current a rows))
      (Listed-if user_id current a _ rows _ refl (others-Listed user_id current rows))

revoke_others-OnlyCurrent :
    (user_id current now : ℕ) (d : Identity)
    → OnlyCurrent user_id current
        (revoke_auth_sessions_where
          (λ a. any (λ b. b.id == a.id) (others user_id current d.auth_sessions))
          now
          d).auth_sessions
unfolding revoke_auth_sessions_where
revoke_others-OnlyCurrent user_id current now d =
    All-update_where_of _ _ _ d.auth_sessions step (others-Listed user_id current d.auth_sessions)
  where
    rows : List AuthSession
    rows = others user_id current d.auth_sessions

    step :
        (a : AuthSession)
        → Listed user_id current rows a
        → let b = if any (λ x. x.id == a.id) rows then revoke_auth now a else a in
          (b.user_id == user_id) ≡ true → is_none b.revoked_at ≡ true → (b.id == current) ≡ true
    step a listed = elim (Bool-cases (any (λ x. x.id == a.id) rows)) [
      | inl e ↦ rw e (λ u l. cc)
      | inr e ↦
          rw e λ u l. elim (Bool-cases (a.id == current)) [ inl c ↦ c | inr c ↦ cc (listed u l c) ]
    ]

unbound_kept :
    (user_id current now : ℕ) (hash : String) (t : RefreshToken) (d : Identity)
    → t.session_id ≡ none
    → find (λ x. str_eq x.token_hash hash) d.refresh_tokens ≡ some t
    → find
        (λ x. str_eq x.token_hash hash)
        (revoke_tokens_where
          (λ x. (x.user_id == user_id) && differs current x.session_id)
          now
          d).refresh_tokens
      ≡ some t
unfolding revoke_tokens_where
unbound_kept user_id current now hash t d unbound found =
    rw
      (
        find-update_where (λ x. str_eq x.token_hash hash)
            (λ x. ((x.user_id == user_id) && differs current x.session_id) && is_none x.revoked_at)
            (revoke_token now) d.refresh_tokens (λ x. refl),
        found,
      )
      (ground arith)

module _ (P : Platform) (cfg : Settings) where
  -- Where the current session ends the others, no other session of the user stays live, and the
  -- count is that of the sessions that were; if there were any, the end is saved.
  pub revoke_other_sessions-OnlyCurrent :
      (user_id current n : ℕ) (s : Session Identity)
      → (revoke_other_sessions P cfg user_id (some current) s).0 ≡ ok n
      → let s' = (revoke_other_sessions P cfg user_id (some current) s).1 in
        OnlyCurrent user_id current s'.db.auth_sessions
        × (n ≡ length (others user_id current s.db.auth_sessions))
        × (0 < n → s'.saved ≡ s'.db)
  unfolding revoke_other_sessions revoke_other_auth_sessions commit_session others
      revoke_tokens_where
  revoke_other_sessions-OnlyCurrent user_id current n s h =
      let rest = revoke_others-OnlyCurrent user_id current (P.now s.ticks) s.db in
      ground (arith, rest)

  -- A refresh token that names no session is left alone when the other sessions are ended: it is
  -- found as it was, whatever the outcome, if the session began with nothing pending.
  pub revoke_other_sessions_unbound :
      (hash : String) (t : RefreshToken) (user_id : ℕ) (current : Option ℕ) (s : Session Identity)
      → s.saved ≡ s.db
      → t.session_id ≡ none
      → find (λ x. str_eq x.token_hash hash) s.db.refresh_tokens ≡ some t
      → let s' = (revoke_other_sessions P cfg user_id current s).1 in
        find (λ x. str_eq x.token_hash hash) s'.db.refresh_tokens ≡ some t
  unfolding revoke_other_sessions revoke_other_auth_sessions commit_session
      revoke_auth_sessions_where
  revoke_other_sessions_unbound hash t user_id none s clean unbound found = found
  revoke_other_sessions_unbound hash t user_id (some current) s clean unbound found = ground (
    arith,
    clean,
    found,
    unbound_kept user_id current (P.now s.ticks) hash t
        (revoke_auth_sessions_where
          (λ a.
            any (λ b. b.id == a.id)
              (filter_by (is_other current) (
                filter_by (λ a'. (a'.user_id == user_id) && is_none a'.revoked_at)
                  s.db.auth_sessions)))
          (P.now s.ticks) s.db)
        unbound found,
  )
