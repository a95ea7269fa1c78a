-- ===== src/Auth/Registration.antt =====
-- Registration keeps email addresses apart.
use job_finder_agent.Common.{
  ℕ, suc, ◌≡◌, ◌⊎◌, refl, false, Option, none, some, List, [], ◌∷◌, String, eq_iff, arith,
  if◌then◌else◌, find, add, All-append, All, Bool-cases, Option-cases, inl, inr,
}
use job_finder_agent.Errors.Exceptions.{user_already_exists}
use job_finder_agent.Session.{
  Action, ◌>>=◌, ◌>>◌, pure, Session, raise, app, commit_session, flush_session, refresh_session,
}
use job_finder_agent.Session.Rules.{Always, >>=-Always}
use job_finder_agent.Auth.Models.{User, Identity}
use job_finder_agent.Auth.Platform.{Platform, Settings}
use job_finder_agent.Auth.Repository.{user_by_email, has_text, role, create_role, assign_role}
use job_finder_agent.Auth.Service.{
  register, ensure_role, give_roles, store_user, new_user, is_initial_admin,
}

-- No two users have one email address.
abbrev pub DistinctEmails : List User → Type 0
DistinctEmails [] = Unit
DistinctEmails (u ∷ us) =
    All (λ v. (e : String) → u.email ≡ some e → has_text e v.email ≡ false) us × DistinctEmails us

has_text_sym :
    (e e' : String) (u new : User)
    → new.email ≡ some e
    → u.email ≡ some e'
    → has_text e u.email ≡ false
    → has_text e' new.email ≡ false
has_text_sym e e' u new is h differs =
    rw is (ground (arith, eq_iff e e', eq_iff e' e, rw h at differs))

DistinctEmails-add :
    (us : List User) (new : User) (e : String)
    → new.email ≡ some e
    → find (λ u. has_text e u.email) us ≡ none
    → DistinctEmails us
    → DistinctEmails (add new us)
unfolding find
DistinctEmails-add [] new e is absent d = (tt, tt)
DistinctEmails-add (u ∷ us) new e is absent d = (
  All-append _ us (new ∷ []) d.0
      (λ e' h. ground (arith, eq_iff e e', has_text_sym e e' u new, h), tt),
  DistinctEmails-add us new e is (ground arith) d.1,
)

-- The users are one of two lists, in what is seen and in what is saved.
abbrev UsersFrom : List User → List User → Session Identity → Type 0
UsersFrom xs ys s =
    ((s.db.users ≡ xs) ⊎ (s.db.users ≡ ys)) × ((s.saved.users ≡ xs) ⊎ (s.saved.users ≡ ys))

module _ (P : Platform) (cfg : Settings) (xs ys : List User) where
  create_role-UsersFrom :
      (name : String) (description : Option String)
      → Always (UsersFrom xs ys) (create_role P name description)
  unfolding create_role commit_session refresh_session
  create_role-UsersFrom name description s i = ground arith

  ensure_role-UsersFrom :
      (name description : String) → Always (UsersFrom xs ys) (ensure_role P cfg name description)
  unfolding ensure_role role
  ensure_role-UsersFrom name description s i =
      ground (arith, create_role-UsersFrom name (some description) s i)

  assign_role-UsersFrom :
      (user_id role_id : ℕ) → Always (UsersFrom xs ys) (assign_role user_id role_id)
  unfolding assign_role commit_session
  assign_role-UsersFrom user_id role_id s i = ground arith

  flush_session-UsersFrom : Always (UsersFrom xs ys) flush_session
  unfolding flush_session
  flush_session-UsersFrom s i = ground arith

  -- The last step of `give_roles`.
  abbrev admin_step : User → String → Action Identity (Unit {0})
  admin_step new email =
      if is_initial_admin P cfg email
      then (do admin ← ensure_role P cfg "admin" "Administrator role"; assign_role new.id admin.id)
      else pure tt

  admin_step-UsersFrom :
      (new : User) (email : String) → Always (UsersFrom xs ys) (admin_step new email)
  admin_step-UsersFrom new email = elim (Bool-cases (is_initial_admin P cfg email)) [
    | inl e ↦ rw e (
        >>=-Always (UsersFrom xs ys) (ensure_role P cfg "admin" "Administrator role")
          (λ admin. assign_role new.id admin.id)
          (ensure_role-UsersFrom "admin" "Administrator role")
          (λ admin. assign_role-UsersFrom new.id admin.id))
    | inr e ↦ rw e (λ s i. i)
  ]

  give_roles-UsersFrom :
      (new : User) (email : String) → Always (UsersFrom xs ys) (give_roles P cfg new email)
  unfolding give_roles
  give_roles-UsersFrom new email =
      >>=-Always (UsersFrom xs ys) (ensure_role P cfg cfg.default_user_role "Default user role")
        (λ r. assign_role new.id r.id >> admin_step new email)
        (ensure_role-UsersFrom cfg.default_user_role "Default user role")
        (λ r.
          >>=-Always (UsersFrom xs ys) (assign_role new.id r.id) (λ _. admin_step new email)
            (assign_role-UsersFrom new.id r.id) (λ _. admin_step-UsersFrom new email))

module _ (P : Platform) (cfg : Settings) where
  store_user-UsersFrom :
      (new : User) (email : String) (s : Session Identity)
      → UsersFrom (add new s.db.users) s.saved.users (store_user P cfg new email s).1
  unfolding store_user
  store_user-UsersFrom new email s =
      let xs = add new s.db.users in
      let ys = s.saved.users in
      let added : Session Identity = record s { db = record s.db { users = xs } } in
      >>=-Always (UsersFrom xs ys) flush_session (λ _. give_roles P cfg new email >> pure new)
        (flush_session-UsersFrom P cfg xs ys)
        (λ _.
          >>=-Always (UsersFrom xs ys) (give_roles P cfg new email) (λ _. pure new)
            (give_roles-UsersFrom P cfg xs ys new email) (λ _ s' i. i))
        added (inl refl, inr refl)

  -- A taken address is refused, and nothing changes.
  register_taken :
      (email password : String) (u : User) (s : Session Identity)
      → find (λ x. has_text (P.lower (P.lower email)) x.email) s.db.users ≡ some u
      → register P cfg email password s ≡ (raise (app user_already_exists), s)
  unfolding register user_by_email
  register_taken email password u s found = ground arith

  abbrev registered : String → String → Session Identity → User
  registered email password s =
      new_user P cfg (P.uuid4 s.ticks) (P.lower email) (P.hash_password (suc s.ticks) password)

  abbrev drawn : Session Identity → Session Identity
  drawn s = record s { ticks = suc (suc s.ticks) }

  register_new :
      (email password : String) (s : Session Identity)
      → find (λ x. has_text (P.lower (P.lower email)) x.email) s.db.users ≡ none
      → register P cfg email password s
        ≡ store_user P cfg (registered email password s) (P.lower email) (drawn s)
  unfolding register user_by_email
  register_new email password s absent = ground arith

  UsersFrom-DistinctEmails :
      (xs ys : List User) (s : Session Identity)
      → DistinctEmails xs
      → DistinctEmails ys
      → UsersFrom xs ys s
      → DistinctEmails s.db.users × DistinctEmails s.saved.users
  UsersFrom-DistinctEmails xs ys s dx dy (seen, saved) =
      (of s.db.users seen, of s.saved.users saved)
    where
      of : (us : List User) → (us ≡ xs) ⊎ (us ≡ ys) → DistinctEmails us
      of us (inl e) = rw e dx
      of us (inr e) = rw e dy

  -- Registration keeps email addresses apart, on every outcome, in what the session sees and in
  -- what is saved, where `str.lower` leaves a text in lower case as it is; an address that a user
  -- has already is refused, and then nothing changes.
  pub register-DistinctEmails :
      (email password : String) (s : Session Identity)
      → P.lower (P.lower email) ≡ P.lower email
      → DistinctEmails s.db.users
      → DistinctEmails s.saved.users
      → let (r, s') = register P cfg email password s in
        DistinctEmails s'.db.users
        × DistinctEmails s'.saved.users
        × ((u : User)
            → find (λ x. has_text (P.lower email) x.email) s.db.users ≡ some u
            → (r ≡ raise (app user_already_exists)) × (s' ≡ s))
  register-DistinctEmails email password s low seen saved =
      elim (Option-cases (find (λ x. has_text (P.lower (P.lower email)) x.email) s.db.users)) [
        | inl absent ↦
            let (a, b) =
              UsersFrom-DistinctEmails (add (registered email password s) s.db.users) s.saved.users
                (store_user P cfg (registered email password s) (P.lower email) (drawn s)).1
                (DistinctEmails-add s.db.users (registered email password s) (P.lower email) refl
                  (rw low at absent) seen)
                saved
                (store_user-UsersFrom (registered email password s) (P.lower email) (drawn s)) in
            (
              rw (register_new email password s absent) a,
              rw (register_new email password s absent) b,
              λ u found. cc (rw low at absent),
            )
        | inr (v, found) ↦
            rw (register_taken email password v s found) (seen, saved, λ u h. (refl, refl))
      ]
