-- ===== src/Auth/Lockout.antt =====
-- Who `authenticate` lets in, and when an account is locked.
use job_finder_agent.Common.{
  ℕ, suc, ◌+◌, ◌≤◌, ◌≡◌, ◌≢◌, ◌⊎◌, refl, sym, ap, ◌∙◌, true, false, ◌&&◌, ◌||◌, Option, none, some,
  [], ◌∷◌, List, All, length, String, arith, is_none, find, find-update_where, ◌==◌, if◌then◌else◌,
  Option-cases, inl, inr,
}
use job_finder_agent.Errors.Exceptions.{account_locked, invalid_credentials}
use job_finder_agent.Session.{Session, ok, raise, app, commit_session, next_fault, later_faults}
use job_finder_agent.Auth.Models.{
  User, Identity, Status, active, pending_verification, is_active, is_pending,
}
use job_finder_agent.Auth.Platform.{Platform, Settings}
use job_finder_agent.Auth.Security.{minutes}
use job_finder_agent.Auth.Repository.{set_user, user_by_email, has_text}
use job_finder_agent.Auth.Service.{
  is_locked, may_sign_in, count_failure, clear_failures, authenticate_user, authenticate,
}

Status-cases :
    (x : Status) → (x ≡ active) ⊎ (x ≡ pending_verification) ⊎ (is_active x || is_pending x ≡ false)
Status-cases active = inl refl
Status-cases pending_verification = inr (inl refl)
Status-cases x = inr (inr refl)

module _ (P : Platform) (cfg : Settings) where
  may_sign_in-inv :
      (password : String) (u : User)
      → may_sign_in P cfg password u ≡ true
      → (hash : String) × (u.password_hash ≡ some hash)
        × (P.verify_password password hash ≡ true)
        × ((u.status ≡ active)
            ⊎ (u.status ≡ pending_verification) × (cfg.auth_email_verification_enabled ≡ true))
  may_sign_in-inv password u may = elim (Option-cases u.password_hash) [
    | inl e ↦ ground (arith, e)
    | inr (hash, e) ↦ (
      hash,
      e,
      ground (arith, e),
      elim (Status-cases u.status) [
        | inl a ↦ inl a
        | inr (inl p) ↦ inr (p, ground (arith, p))
        | inr (inr neither) ↦ ground (arith, neither)
      ],
    )
  ]

  -- The user that is let in: where accounts are locked, its failures are forgotten.
  abbrev pub admitted : User → User
  admitted u =
      if cfg.auth_account_lockout_enabled
      then record u { failed_login_attempts = 0; locked_until = none }
      else u

  authenticate_user-inv :
      (password : String) (now : ℕ) (u v : User) (s : Session Identity)
      → (authenticate_user P cfg password now u s).0 ≡ ok v
      → (may_sign_in P cfg password u ≡ true)
        × ((cfg.auth_account_lockout_enabled && is_locked now u) ≡ false)
        × ((cfg.auth_email_verification_enabled && is_none u.email_verified_at) ≡ false)
        × (v ≡ admitted u)
        × (cfg.auth_account_lockout_enabled ≡ true
            → (authenticate_user P cfg password now u s).1.saved
              ≡ set_user u.id (clear_failures P cfg) s.db)
  unfolding authenticate_user clear_failures commit_session
  authenticate_user-inv password now u v s h =
      (ground arith, ground arith, ground arith, ground arith, λ on. ground arith)

  -- The row that `authenticate` finds for an email address.
  abbrev pub account : String → Identity → Option User
  account email d = find (λ u. has_text (P.lower (P.lower email)) u.email) d.users

  pub account-set_user :
      (email : String) (f : User → User) (d : Identity) (u : User)
      → ((x : User) → (f x).email ≡ x.email)
      → account email d ≡ some u
      → account email (set_user u.id f d) ≡ some (f u)
  unfolding set_user
  account-set_user email f d u same h =
      rw
        (
          find-update_where (λ x. has_text (P.lower (P.lower email)) x.email) (λ x. x.id == u.id) f
              d.users (λ x. rw (same x)),
          h,
        )
        (ground arith)

  -- Whoever is let in gave the address and the password of an account that is active, or pending where
  -- addresses are verified; that is not locked at that moment, where accounts are locked; and whose
  -- address is verified, where addresses are. The user that is let in is this account's, and where accounts
  -- are locked, its failures are forgotten in what is saved.
  pub authenticate_sound :
      (email password : String) (v : User) (s : Session Identity)
      → (authenticate P cfg email password s).0 ≡ ok v
      → (u : User) × (hash : String) × (account email s.db ≡ some u)
        × (u.password_hash ≡ some hash)
        × (P.verify_password password hash ≡ true)
        × ((u.status ≡ active)
            ⊎ (u.status ≡ pending_verification) × (cfg.auth_email_verification_enabled ≡ true))
        × ((until : ℕ)
            → cfg.auth_account_lockout_enabled ≡ true
            → u.locked_until ≡ some until
            → until ≤ P.now s.ticks)
        × (cfg.auth_email_verification_enabled ≡ true → u.email_verified_at ≢ none)
        × (v ≡ admitted u)
        × (cfg.auth_account_lockout_enabled ≡ true
            → account email (authenticate P cfg email password s).1.saved ≡ some v)
  unfolding authenticate user_by_email clear_failures
  authenticate_sound email password v s h = elim (Option-cases (account email s.db)) [
    | inl absent ↦ ground (arith, absent)
    | inr (u, found) ↦
        let read : Session Identity = record s { ticks = suc s.ticks } in
        let same : authenticate P cfg email password s
            ≡ authenticate_user P cfg password (P.now s.ticks) u read =
          rw found refl in
        let (may, unlocked, verified, is_v, saved) =
          authenticate_user-inv password (P.now s.ticks) u v read (rw same at h) in
        let (hash, is_hash, fits, status) = may_sign_in-inv password u may in
        (
          u,
          hash,
          found,
          is_hash,
          fits,
          status,
          (λ until on e. ground (arith, unlocked)),
          (λ on e. ground (arith, verified)),
          is_v,
          (λ on.
              rw (same, saved on)
                (account-set_user email (clear_failures P cfg) s.db u (λ x. refl) found
                  ∙ ap (λ x. some x) (sym (rw on at is_v)))),
        )
  ]

  -- A refused password on an account that is not locked, where accounts are locked: the answer is
  -- InvalidCredentials, and the counted failure is saved.
  pub authenticate_failure :
      (email password : String) (u : User) (s : Session Identity)
      → cfg.auth_account_lockout_enabled ≡ true
      → account email s.db ≡ some u
      → is_locked (P.now s.ticks) u ≡ false
      → may_sign_in P cfg password u ≡ false
      → next_fault s.faults ≡ none
      → let (r, s') = authenticate P cfg email password s in
        let d = set_user u.id (count_failure P cfg (P.now s.ticks)) s.db in
        (r ≡ raise (app invalid_credentials))
        × (s'.db ≡ d)
        × (s'.saved ≡ d)
        × (s'.ticks ≡ suc s.ticks)
        × (s'.faults ≡ later_faults s.faults)
  unfolding authenticate user_by_email commit_session
  authenticate_failure email password u s on found unlocked wrong works = ground arith

  -- Where accounts are locked, a locked account is refused whatever the password, and the attempt
  -- changes nothing.
  pub authenticate_locked :
      (email password : String) (u : User) (s : Session Identity)
      → cfg.auth_account_lockout_enabled ≡ true
      → account email s.db ≡ some u
      → is_locked (P.now s.ticks) u ≡ true
      → let (r, s') = authenticate P cfg email password s in
        (r ≡ raise (app account_locked)) × (s'.db ≡ s.db) × (s'.saved ≡ s.saved)
  unfolding authenticate user_by_email
  authenticate_locked email password u s on found locked = ground arith

  -- The session after an attempt with each password.
  unfoldable pub attempts : String → List String → Session Identity → Session Identity
  attempts email [] s = s
  attempts email (password ∷ passwords) s =
      attempts email passwords (authenticate P cfg email password s).1

  -- The account is locked until `lockout_minutes` after the last value of the clock that was read.
  pub record IsLockedOut (email : String) (s : Session Identity) : Type 0 where
    pub row : User
    pub tick : ℕ
    pub found : account email s.db ≡ some row
    pub until : row.locked_until ≡ some (P.now tick + minutes cfg.auth_lockout_minutes)
    pub last : s.ticks ≡ suc tick
    pub committed : s.saved ≡ s.db

  module _ (email : String) (on : cfg.auth_account_lockout_enabled ≡ true) where
    -- What one refused attempt makes of an account that is not locked.
    module _ (password : String) (s : Session Identity) (u : User)
        (found : account email s.db ≡ some u) (fresh : is_locked (P.now s.ticks) u ≡ false)
        (wrong : may_sign_in P cfg password u ≡ false) (quiet : s.faults ≡ []) where
      abbrev failed : User
      failed = count_failure P cfg (P.now s.ticks) u

      failure :
          let (r, s') = authenticate P cfg email password s in
          let d = set_user u.id (count_failure P cfg (P.now s.ticks)) s.db in
          (r ≡ raise (app invalid_credentials))
          × (s'.db ≡ d)
          × (s'.saved ≡ d)
          × (s'.ticks ≡ suc s.ticks)
          × (s'.faults ≡ later_faults s.faults)
      unfolding next_fault
      failure = authenticate_failure email password u s on found fresh wrong (rw quiet)

      failed_found : account email (authenticate P cfg email password s).1.db ≡ some failed
      unfolding count_failure
      failed_found = rw (failure.1) (account-set_user email _ s.db u (λ x. refl) found)

      failed_quiet : (authenticate P cfg email password s).1.faults ≡ []
      unfolding later_faults
      failed_quiet = rw (failure.4, quiet)

      failed_locked :
          u.failed_login_attempts + 1 ≡ cfg.auth_max_login_attempts
          → IsLockedOut email (authenticate P cfg email password s).1
      unfolding count_failure
      failed_locked full = record {
        row = failed;
        tick = s.ticks;
        found = failed_found;
        until = ground arith;
        last = failure.3;
        committed = failure.2 ∙ sym failure.1;
      }

    -- Where accounts are locked, an account that has had fewer failures than the limit is locked out by as
    -- many refused attempts as are left, whatever their passwords, if every call of the database succeeds:
    -- the lock of the last attempt is saved, and it lasts for the lockout's minutes from that attempt. A
    -- lock that the account had before must have run out at each reading of the clock from the first
    -- attempt on.
    pub attempts-IsLockedOut :
        (password : String) (passwords : List String) (s : Session Identity) (u : User)
        → account email s.db ≡ some u
        → ((t : ℕ) → s.ticks ≤ t → is_locked (P.now t) u ≡ false)
        → All (λ p. may_sign_in P cfg p u ≡ false) (password ∷ passwords)
        → s.faults ≡ []
        → u.failed_login_attempts + length (password ∷ passwords) ≡ cfg.auth_max_login_attempts
        → IsLockedOut email (attempts email (password ∷ passwords) s)
    unfolding attempts count_failure later_faults
    attempts-IsLockedOut password [] s u found fresh wrong quiet full =
        failed_locked password s u found (fresh s.ticks (omega arith)) wrong.0 quiet (omega arith)
    attempts-IsLockedOut password (next ∷ passwords) s u found fresh wrong quiet full =
        let now_fresh = fresh s.ticks (omega arith) in
        let ticked = (failure password s u found now_fresh wrong.0 quiet).3 in
        attempts-IsLockedOut next passwords (authenticate P cfg email password s).1
          (failed password s u found now_fresh wrong.0 quiet)
          (failed_found password s u found now_fresh wrong.0 quiet)
          (λ t le. ground (arith, fresh t (omega (arith, ticked, le)))) wrong.1
          (failed_quiet password s u found now_fresh wrong.0 quiet) (omega arith)
