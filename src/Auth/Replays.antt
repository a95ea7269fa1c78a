-- ===== src/Auth/Replays.antt =====
-- What the replay of an exchanged refresh token ends (domain/auth/service.py of app).
use job_finder_agent.Common.{
  ℕ, suc, ◌+◌, ◌≡◌, refl, update_where, Bool, true, ◌&&◌, ◌||◌, not, Option, none, some, List, [],
  ◌∷◌, any, any-append, filter_by, find, String, str_eq, eq_refl, arith, is_none, is_some, leb,
  ◌==◌, Bool-cases, Option-cases, inl, inr,
}
use job_finder_agent.Errors.Exceptions.{refresh_token_replay}
use job_finder_agent.Session.{
  Session, Result-cases, ok, raise, app, commit_session, next_fault, later_faults,
}
use job_finder_agent.Auth.Models.{User, Identity, RefreshToken}
use job_finder_agent.Auth.Platform.{Platform, Settings}
use job_finder_agent.Auth.Repository.{
  revoke_tokens_where, revoke_tokens, save_refresh_token, user, roles, role_names,
}
use job_finder_agent.Auth.Security.{create_access_token, days}
use job_finder_agent.Auth.Service.{
  refresh, rotate_token, issue_tokens, open_session, sign_tokens, Metadata, no_metadata,
}
use job_finder_agent.Auth.Rotation.{
  FamilyRevoked, revoke_tokens_where-FamilyRevoked, stored, refresh_revoked, refresh-stored,
  refresh-rotate_token, refresh_unknown, refresh_refuses,
}

-- The tokens of other families.
abbrev pub other_families : ℕ → Identity → List RefreshToken
other_families family d = filter_by (λ t. not (t.family_id == family)) d.refresh_tokens

other_families-kept :
    (family now : ℕ) (d : Identity)
    → other_families family (revoke_tokens_where (λ t. t.family_id == family) now d)
      ≡ other_families family d
unfolding revoke_tokens_where update_where
other_families-kept family now d = rows d.refresh_tokens
  where
    rows :
        (ts : List RefreshToken)
        → filter_by
            (λ t. not (t.family_id == family))
            (revoke_tokens_where
              (λ t. t.family_id == family)
              now
              (record d { refresh_tokens = ts })).refresh_tokens
          ≡ filter_by (λ t. not (t.family_id == family)) ts
    rows [] = refl
    rows (t ∷ ts) = ground (arith, rows ts)

module _ (P : Platform) (cfg : Settings) where
  -- A row of the token that is live, of the family.
  abbrev pub is_live : String → ℕ → RefreshToken → Bool
  is_live raw family t =
      str_eq t.token_hash (P.sha256 raw) && (t.family_id == family) && is_none t.revoked_at

  sign_tokens-is_live :
      (u : User) (names : List String) (id : Option ℕ) (s : Session Identity)
      (tokens : String × String)
      → (sign_tokens P cfg u names id s).0 ≡ ok tokens
      → any
          (is_live tokens.1 (P.uuid4 (suc s.ticks)))
          (sign_tokens P cfg u names id s).1.db.refresh_tokens
        ≡ true
  unfolding sign_tokens create_access_token save_refresh_token commit_session
  sign_tokens-is_live u names id s tokens h =
      let token : RefreshToken = record {
        user_id = u.id;
        session_id = id;
        token_hash = P.sha256 (P.token_urlsafe s.ticks);
        family_id = P.uuid4 (suc s.ticks);
        expires_at = P.now (suc (suc s.ticks)) + days cfg.refresh_token_expire_days;
        revoked_at = none;
      } in
      ground (
        arith,
        h,
        any-append (is_live (P.token_urlsafe s.ticks) (P.uuid4 (suc s.ticks))) s.db.refresh_tokens
            (token ∷ []),
        eq_refl (P.sha256 (P.token_urlsafe s.ticks)),
      )

  -- The refresh token that is handed out is live, of a family that was drawn for it.
  abbrev HandedOut : String → Session Identity → Type 0
  HandedOut raw s = (n : ℕ) × (any (is_live raw (P.uuid4 n)) s.db.refresh_tokens ≡ true)

  issue_tokens-HandedOut :
      (u : User) (given : Option ℕ) (metadata : Metadata) (s : Session Identity)
      (tokens : String × String)
      → (issue_tokens P cfg u given metadata s).0 ≡ ok tokens
      → HandedOut tokens.1 (issue_tokens P cfg u given metadata s).1
  unfolding issue_tokens roles
  issue_tokens-HandedOut u given metadata s tokens h =
      let opened = open_session P cfg u.id given metadata s in
      elim (Result-cases opened.0) [
        | inr (x, e) ↦ ground (arith, e)
        | inl (id, e) ↦ (
          suc opened.1.ticks,
          ground (arith, e, sign_tokens-is_live u (role_names u.id s.db) id opened.1 tokens),
        )
      ]

  rotate_token-HandedOut :
      (t : RefreshToken) (now : ℕ) (s : Session Identity) (tokens : String × String)
      → (rotate_token P cfg t now s).0 ≡ ok tokens
      → HandedOut tokens.1 (rotate_token P cfg t now s).1
  unfolding rotate_token revoke_tokens commit_session user
  rotate_token-HandedOut t now s tokens h =
      let d = revoke_tokens_where (λ t'. t'.family_id == t.family_id) now s.db in
      let committed : Session Identity = record s {
        db = d;
        saved = d;
        faults = later_faults s.faults;
      } in
      elim (Option-cases (find (λ u. u.id == t.user_id) d.users)) [
        | inl e ↦ ground (arith, e)
        | inr (u, e) ↦
            let same : rotate_token P cfg t now s
                ≡ issue_tokens P cfg u t.session_id no_metadata committed =
              ground (arith, e) in
            rw same
              (issue_tokens-HandedOut u t.session_id no_metadata committed tokens (rw same at h))
      ]

  refresh-HandedOut :
      (raw : String) (s : Session Identity) (tokens : String × String)
      → (refresh P cfg raw s).0 ≡ ok tokens
      → HandedOut tokens.1 (refresh P cfg raw s).1
  refresh-HandedOut raw s tokens h = elim (Option-cases (stored P cfg raw s.db)) [
    | inl e ↦ absurd (refresh_unknown P cfg raw s tokens e h)
    | inr (t, e) ↦ elim (Bool-cases (is_some t.revoked_at || leb t.expires_at (P.now s.ticks))) [
      | inl dead ↦ absurd (refresh_refuses P cfg raw t s tokens e dead h)
      | inr live ↦
          let same = refresh-rotate_token P cfg raw t s e live in
          rw same (rotate_token-HandedOut t (P.now s.ticks) _ tokens (rw same at h))
    ]
  ]

  -- A token that was exchanged is refused as a replay when it comes again, if the commit then succeeds, and
  -- its family is revoked in what is saved. Every token of another family stays as it was. The token that it
  -- was exchanged for was live, and its family is a number that was drawn for it: so it is ended by the
  -- replay only where that is the number of the old family.
  pub refresh_replay :
      (raw : String) (s : Session Identity) (tokens : String × String)
      → (refresh P cfg raw s).0 ≡ ok tokens
      → next_fault (refresh P cfg raw s).1.faults ≡ none
      → let s1 = (refresh P cfg raw s).1 in
        let (r, s2) = refresh P cfg raw s1 in
        (t : RefreshToken) × (stored P cfg raw s1.db ≡ some t)
        × (r ≡ raise (app refresh_token_replay))
        × FamilyRevoked t.family_id s2.saved.refresh_tokens
        × (other_families t.family_id s2.saved ≡ other_families t.family_id s1.db)
        × ((n : ℕ) × (any (is_live tokens.1 (P.uuid4 n)) s1.db.refresh_tokens ≡ true))
  refresh_replay raw s tokens h works =
      let s1 = (refresh P cfg raw s).1 in
      let (t, found, revoked) = refresh-stored P cfg raw s tokens h in
      let (refused, left) = refresh_revoked P cfg raw t s1 found revoked works in
      (
        t,
        found,
        refused,
        rw left (revoke_tokens_where-FamilyRevoked t.family_id (P.now s1.ticks) s1.db),
        rw left (other_families-kept t.family_id (P.now s1.ticks) s1.db),
        refresh-HandedOut raw s tokens h,
      )
