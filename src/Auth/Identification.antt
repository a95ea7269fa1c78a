-- ===== src/Auth/Identification.antt =====
-- An access token names the user that it was issued to.
use job_finder_agent.Common.{
  ℕ, suc, ◌+◌, ◌<◌, ◌≤◌, ◌≡◌, refl, Bool, true, ◌||◌, not, Option, none, some, List, String, arith,
  find, ◌==◌,
}
use job_finder_agent.Session.{Session, ok}
use job_finder_agent.Auth.Models.{User, Identity, is_active}
use job_finder_agent.Auth.Platform.{Platform, Settings, IsLawful, Decoded, Claims}
use job_finder_agent.Auth.Security.{
  create_access_token, decode_access_token, check_claims, sid_text, minutes,
}
use job_finder_agent.Auth.Repository.{user, auth_session}
use job_finder_agent.Auth.Access.{user_of_token, token_ids, require_session, require_active}
use job_finder_agent.Auth.Sessions.{session_row, is_ended}

module _ (P : Platform) (cfg : Settings) (lawful : IsLawful P) where
  abbrev decoded : ℕ → Option ℕ → Decoded
  decoded user_id sid = record {
    type = some "access";
    sub = some (P.uuid_text user_id);
    sid = sid_text P sid;
  }

  check_claims-decoded :
      (user_id : ℕ) (sid : Option ℕ)
      → check_claims (decoded user_id sid) ≡ some (decoded user_id sid)
  unfolding check_claims
  check_claims-decoded user_id sid = rw lawful.uuid_text-not_empty refl

  token_ids-decoded :
      (user_id : ℕ) (sid : Option ℕ) → token_ids P (decoded user_id sid) ≡ some (user_id, sid)
  unfolding token_ids
  token_ids-decoded user_id none = rw lawful.parse_uuid-uuid_text refl
  token_ids-decoded user_id (some id) = ground (
    arith,
    lawful.parse_uuid-uuid_text user_id,
    lawful.parse_uuid-uuid_text id,
    lawful.uuid_text-not_empty id,
  )

  -- The claims that `create_access_token` signs at a moment.
  abbrev claims_at : ℕ → ℕ → Option String → List String → Option ℕ → ℕ → Claims
  claims_at user_id jti email names sid now = record {
    sub = P.uuid_text user_id;
    email = email;
    roles = names;
    type = "access";
    jti = P.uuid_text jti;
    iat = now;
    exp = now + minutes cfg.access_token_expire_minutes;
    iss = cfg.jwt_issuer;
    sid = sid_text P sid;
  }

  decode-claims_at :
      (user_id jti : ℕ) (email : Option String) (names : List String) (sid : Option ℕ)
      (now later : ℕ)
      → now ≤ later
      → later < now + minutes cfg.access_token_expire_minutes
      → decode_access_token P later
          (P.jwt_encode (claims_at user_id jti email names sid now) cfg.jwt_secret_key)
          cfg.jwt_secret_key
          cfg.jwt_issuer
        ≡ some (decoded user_id sid)
  unfolding decode_access_token
  decode-claims_at user_id jti email names sid now later issued h =
      rw
        (
          lawful.jwt_decode-jwt_encode later (claims_at user_id jti email names sid now)
              cfg.jwt_secret_key issued h,
          decode_access_token,
        )
        (check_claims-decoded user_id sid)

  -- The session that the token names is live, where sessions are managed.
  abbrev pub session_live : ℕ → Option ℕ → Identity → Bool
  session_live user_id none d = not cfg.auth_session_management_enabled
  session_live user_id (some id) d =
      not cfg.auth_session_management_enabled || not (is_ended (session_row id user_id d))

  user_of_token_live :
      (u : User) (sid : Option ℕ) (later : Session Identity) (token : String) (c : Decoded)
      → decode_access_token P (P.now later.ticks) token cfg.jwt_secret_key cfg.jwt_issuer ≡ some c
      → token_ids P c ≡ some (u.id, sid)
      → find (λ x. x.id == u.id) later.db.users ≡ some u
      → is_active u.status ≡ true
      → session_live u.id sid later.db ≡ true
      → (user_of_token P cfg token later).0 ≡ ok u
  unfolding user_of_token user auth_session require_session require_active
  user_of_token_live u none later token c d ids found act live = ground arith
  user_of_token_live u (some id) later token c d ids found act live = ground arith

  create_access_token-eq :
      (u : User) (names : List String) (sid : Option ℕ) (s : Session Identity) (token : String)
      → (create_access_token P u.id u.email names cfg.jwt_secret_key cfg.access_token_expire_minutes
          cfg.jwt_issuer sid s).0
        ≡ ok token
      → P.jwt_encode
          (claims_at u.id (P.uuid4 (suc s.ticks)) u.email names sid (P.now s.ticks))
          cfg.jwt_secret_key
        ≡ token
  unfolding create_access_token
  create_access_token-eq u names sid s token h = cc

  -- From when it was issued until it expires, an access token identifies the user that it was made for, if that user is
  -- there and active and, where sessions are managed, the token names a session and that is live. This
  -- relies on what is documented of UUIDs and of signed tokens.
  pub user_of_token-create_access_token :
      (u : User) (names : List String) (sid : Option ℕ) (s later : Session Identity)
      (token : String)
      → (create_access_token P u.id u.email names cfg.jwt_secret_key cfg.access_token_expire_minutes
          cfg.jwt_issuer sid s).0
        ≡ ok token
      → P.now s.ticks ≤ P.now later.ticks
      → P.now later.ticks < P.now s.ticks + minutes cfg.access_token_expire_minutes
      → find (λ x. x.id == u.id) later.db.users ≡ some u
      → is_active u.status ≡ true
      → session_live u.id sid later.db ≡ true
      → (user_of_token P cfg token later).0 ≡ ok u
  user_of_token-create_access_token u names sid s later token made issued valid found act live =
      let decodes =
        decode-claims_at u.id (P.uuid4 (suc s.ticks)) u.email names sid (P.now s.ticks)
          (P.now later.ticks) issued valid in
      user_of_token_live u sid later token (decoded u.id sid)
        (rw (create_access_token-eq u names sid s token made) at decodes)
        (token_ids-decoded u.id sid) found act live
