-- ===== src/Auth/Rotation.antt =====
-- The rotation of refresh tokens: a token works once, and its second use ends the whole family.
use job_finder_agent.Common.{
  ℕ, suc, ◌+◌, ◌≡◌, ◌≢◌, refl, ◌∙◌, Bool, true, false, ◌&&◌, ◌||◌, Option, none, some, List, [],
  ◌∷◌, String, str_eq, arith, is_none, is_some, leb, find, find-update_where, find-append, ◌==◌,
  All, All-update_where, Bool-cases, Option-cases, inl, inr,
}
use job_finder_agent.Errors.Exceptions.{refresh_token_replay}
use job_finder_agent.Session.{
  Session, ok, raise, app, commit_session, flush_session, next_fault, later_faults,
}
use job_finder_agent.Session.Rules.{OnReturn, >>=-OnReturn}
use job_finder_agent.Auth.Models.{User, Identity, RefreshToken}
use job_finder_agent.Auth.Platform.{Platform, Settings}
use job_finder_agent.Auth.Repository.{
  revoke_tokens_where, revoke_token, refresh_token, revoke_tokens, save_refresh_token,
  save_auth_session, user, roles, role_names,
}
use job_finder_agent.Auth.Security.{create_access_token, days}
use job_finder_agent.Auth.Service.{
  refresh, refuse_token, rotate_token, issue_tokens, open_session, sign_tokens, Metadata,
  no_metadata,
}

-- Every token of the family is revoked.
abbrev pub FamilyRevoked : ℕ → List RefreshToken → Type 0
FamilyRevoked family = All (λ t. (t.family_id == family) ≡ true → is_some t.revoked_at ≡ true)

pub revoke_tokens_where-FamilyRevoked :
    (family now : ℕ) (d : Identity)
    → FamilyRevoked family (revoke_tokens_where (λ t. t.family_id == family) now d).refresh_tokens
unfolding revoke_tokens_where
revoke_tokens_where-FamilyRevoked family now d =
    All-update_where _ _ _ d.refresh_tokens (λ t. ground arith)

abbrev pub has_hash : String → RefreshToken → Bool
has_hash h t = str_eq t.token_hash h

module _ (P : Platform) (cfg : Settings) where
  abbrev pub stored : String → Identity → Option RefreshToken
  stored raw d = find (has_hash (P.sha256 raw)) d.refresh_tokens

  -- The session after the clock was read.
  abbrev read : Session Identity → Session Identity
  read s = record s { ticks = suc s.ticks }

  module _ (raw : String) (t : RefreshToken) (s : Session Identity)
      (found : stored raw s.db ≡ some t) where
    refresh-refuse_token :
        (is_some t.revoked_at || leb t.expires_at (P.now s.ticks)) ≡ true
        → refresh P cfg raw s ≡ refuse_token P cfg t (P.now s.ticks) (read s)
    unfolding refresh refresh_token
    refresh-refuse_token dead = rw (found, dead)

    pub refresh-rotate_token :
        (is_some t.revoked_at || leb t.expires_at (P.now s.ticks)) ≡ false
        → refresh P cfg raw s ≡ rotate_token P cfg t (P.now s.ticks) (read s)
    unfolding refresh refresh_token
    refresh-rotate_token live = rw (found, live)

  refuse_token-ne-ok :
      (t : RefreshToken) (now : ℕ) (s : Session Identity) (tokens : String × String)
      → (refuse_token P cfg t now s).0 ≢ ok tokens
  unfolding refuse_token revoke_tokens commit_session
  refuse_token-ne-ok t now s tokens = ground arith

  refuse_token_revokes :
      (t : RefreshToken) (now : ℕ) (s : Session Identity)
      → is_some t.revoked_at ≡ true
      → next_fault s.faults ≡ none
      → let (r, s') = refuse_token P cfg t now s in
        (r ≡ raise (app refresh_token_replay))
        × (s'.saved ≡ revoke_tokens_where (λ t'. t'.family_id == t.family_id) now s.db)
  unfolding refuse_token revoke_tokens commit_session
  refuse_token_revokes t now s revoked works = ground arith

  -- A token that was revoked before is refused as a replay, and its family is revoked in what is saved.
  pub refresh_revoked :
      (raw : String) (t : RefreshToken) (s : Session Identity)
      → stored raw s.db ≡ some t
      → is_some t.revoked_at ≡ true
      → next_fault s.faults ≡ none
      → let (r, s') = refresh P cfg raw s in
        (r ≡ raise (app refresh_token_replay))
        × (s'.saved ≡ revoke_tokens_where (λ t'. t'.family_id == t.family_id) (P.now s.ticks) s.db)
  refresh_revoked raw t s found revoked works =
      rw (refresh-refuse_token raw t s found (ground arith))
        (refuse_token_revokes t (P.now s.ticks) (read s) revoked works)

  -- Whatever the database does, a revoked or expired token brings no new tokens.
  pub refresh_refuses :
      (raw : String) (t : RefreshToken) (s : Session Identity) (tokens : String × String)
      → stored raw s.db ≡ some t
      → (is_some t.revoked_at || leb t.expires_at (P.now s.ticks)) ≡ true
      → (refresh P cfg raw s).0 ≢ ok tokens
  refresh_refuses raw t s tokens found dead =
      rw (refresh-refuse_token raw t s found dead) (refuse_token-ne-ok t _ _ tokens)

  module _ (p : RefreshToken → Bool) (x : RefreshToken) where
    -- The stored row is found in the session.
    abbrev Holds : Session Identity → Type 0
    Holds s = find p s.db.refresh_tokens ≡ some x

    save_refresh_token-Holds : (token : RefreshToken) → OnReturn Holds (save_refresh_token token)
    unfolding save_refresh_token commit_session
    save_refresh_token-Holds token s found r h =
        ground (arith, find-append p s.db.refresh_tokens (token ∷ []) x found)

    open_session-Holds :
        (user_id : ℕ) (given : Option ℕ) (metadata : Metadata)
        → OnReturn Holds (open_session P cfg user_id given metadata)
    unfolding open_session save_auth_session flush_session
    open_session-Holds user_id given metadata s found id h = ground arith

    sign_tokens-Holds :
        (u : User) (names : List String) (id : Option ℕ)
        → OnReturn Holds (sign_tokens P cfg u names id)
    unfolding sign_tokens create_access_token
    sign_tokens-Holds u names id s found tokens h =
        let token : RefreshToken = record {
          user_id = u.id;
          session_id = id;
          token_hash = P.sha256 (P.token_urlsafe s.ticks);
          family_id = P.uuid4 (suc s.ticks);
          expires_at = P.now (suc (suc s.ticks)) + days cfg.refresh_token_expire_days;
          revoked_at = none;
        } in
        let drawn : Session Identity = record s { ticks = suc (suc (suc s.ticks)) } in
        ground (arith, save_refresh_token-Holds token drawn found tt)

    issue_tokens-Holds :
        (u : User) (given : Option ℕ) (metadata : Metadata)
        → OnReturn Holds (issue_tokens P cfg u given metadata)
    unfolding issue_tokens roles
    issue_tokens-Holds u given metadata s =
        >>=-OnReturn Holds (open_session P cfg u.id given metadata)
          (sign_tokens P cfg u (role_names u.id s.db)) (open_session-Holds u.id given metadata)
          (sign_tokens-Holds u _) s

  -- A live token is found revoked after it was exchanged.
  module _ (raw : String) (t : RefreshToken) (now : ℕ) (s : Session Identity)
      (found : stored raw s.db ≡ some t) (live : is_some t.revoked_at ≡ false) where
    abbrev revoked : Identity
    revoked = revoke_tokens_where (λ t'. t'.family_id == t.family_id) now s.db

    stored-revoked : stored raw revoked ≡ some (revoke_token now t)
    unfolding revoke_tokens_where
    stored-revoked =
        rw
          (
            find-update_where (has_hash (P.sha256 raw))
                (λ t'. (t'.family_id == t.family_id) && is_none t'.revoked_at) (revoke_token now)
                s.db.refresh_tokens (λ x. refl),
            found,
          )
          (ground arith)

    abbrev committed : Session Identity
    committed = record s { db = revoked; saved = revoked; faults = later_faults s.faults }

    rotate_token-stored :
        (tokens : String × String)
        → (rotate_token P cfg t now s).0 ≡ ok tokens
        → stored raw (rotate_token P cfg t now s).1.db ≡ some (revoke_token now t)
    unfolding rotate_token revoke_tokens commit_session user
    rotate_token-stored tokens h =
        elim (Option-cases (find (λ u. u.id == t.user_id) revoked.users)) [
          | inl e ↦ ground (arith, e)
          | inr (u, e) ↦ ground (
            arith,
            e,
            stored-revoked,
            issue_tokens-Holds (has_hash (P.sha256 raw)) (revoke_token now t) u t.session_id
                no_metadata committed stored-revoked tokens,
          )
        ]

  pub refresh_unknown :
      (raw : String) (s : Session Identity) (tokens : String × String)
      → stored raw s.db ≡ none
      → (refresh P cfg raw s).0 ≢ ok tokens
  unfolding refresh refresh_token
  refresh_unknown raw s tokens e = rw e (λ h. cc)

  pub refresh-stored :
      (raw : String) (s : Session Identity) (tokens : String × String)
      → (refresh P cfg raw s).0 ≡ ok tokens
      → (t : RefreshToken) × (stored raw (refresh P cfg raw s).1.db ≡ some t)
        × (is_some t.revoked_at ≡ true)
  refresh-stored raw s tokens h = elim (Option-cases (stored raw s.db)) [
    | inl e ↦ absurd (refresh_unknown raw s tokens e h)
    | inr (t, e) ↦ elim (Bool-cases (is_some t.revoked_at || leb t.expires_at (P.now s.ticks))) [
      | inl dead ↦ absurd (refresh_refuses raw t s tokens e dead h)
      | inr live ↦ (
        revoke_token (P.now s.ticks) t,
        rw (refresh-rotate_token raw t s e live) (
            rotate_token-stored raw t (P.now s.ticks) (read s) e (ground arith) tokens
              (rw (refresh-rotate_token raw t s e live) at h)),
        refl,
      )
    ]
  ]

  -- A refresh token works once: after it was exchanged for new tokens it is never exchanged again,
  -- in any later session that finds the row which the exchange left, whatever the clock and the
  -- database do.
  pub refresh_once :
      (raw : String) (s later : Session Identity) (tokens tokens' : String × String)
      → (refresh P cfg raw s).0 ≡ ok tokens
      → stored raw later.db ≡ stored raw (refresh P cfg raw s).1.db
      → (refresh P cfg raw later).0 ≢ ok tokens'
  refresh_once raw s later tokens tokens' h same =
      let (t, found, revoked) = refresh-stored raw s tokens h in
      refresh_refuses raw t later tokens' (same ∙ found) (ground arith)
