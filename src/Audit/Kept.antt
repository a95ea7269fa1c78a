-- ===== src/Audit/Kept.antt =====
-- What retention deletes and what it archives.
use job_finder_agent.Common.{
  ℕ, suc, ◌-◌, ◌≡◌, ◌⊎◌, refl, sym, Bool, true, not, List, [], ◌∷◌, ◌++◌, All, filter_by,
  filter_by-All, length, length-order_by, order_by-perm, arith, none, some, Option-cases,
  Bool-cases, inl, inr,
}
use mathlib.Core.List.{Perm, perm_middle}
use mathlib.Core.List.Perm
use job_finder_agent.Errors.Exceptions.{ErrorClass}
use job_finder_agent.Errors.Database.{DatabaseError, translate_database_error}
use job_finder_agent.Session.{Session, ok, raise, app, next_fault, later_faults, commit_session}
use job_finder_agent.Auth.Models.{AuditEvent, Identity}
use job_finder_agent.Auth.Platform.{Platform}
use job_finder_agent.Auth.Security.{days}
use job_finder_agent.Audit.Retention.{
  Archive, Retained, apply_retention, events_before, delete_before, is_before, is_older,
}

-- The entries that fail a test and those that pass it are all the entries.
filter_by-perm :
    {A : Type 0} (p : A → Bool) (xs : List A)
    → Perm (filter_by (λ x. not (p x)) xs ++ filter_by p xs) xs
filter_by-perm p [] = Perm.refl []
filter_by-perm p (x ∷ xs) = elim (Bool-cases (p x)) [
  | inl e ↦ rw e (
      Perm.trans (perm_middle (filter_by (λ y. not (p y)) xs) (filter_by p xs))
        (Perm.cons x (filter_by-perm p xs)))
  | inr e ↦ rw e (Perm.cons x (filter_by-perm p xs))
]

module _ (P : Platform) (retention_days : ℕ) (w : Archive) where
  abbrev pub cutoff : ℕ
  cutoff = P.now w.session.ticks - days retention_days

  abbrev events : List AuditEvent
  events = w.session.db.audit_events

  abbrev due : List AuditEvent
  due = filter_by (is_before cutoff) events

  abbrev kept : List AuditEvent
  kept = filter_by (λ e. not (is_before cutoff e)) events

  abbrev written : List AuditEvent
  written = events_before cutoff w.session.db

  abbrev left : Identity
  left = record w.session.db { audit_events = kept }

  abbrev after : Session Identity
  after = record w.session { ticks = suc w.session.ticks; faults = later_faults w.session.faults }

  returns :
      next_fault w.session.faults ≡ none
      → apply_retention P retention_days true w ≡ (
        ok (record { cutoff = cutoff; archived = length written; deleted = length due }),
        record { session = record after { db = left; saved = left }; lines = w.lines ++ written },
      )
  unfolding apply_retention delete_before commit_session events_before
  returns works = ground (arith, works)

  breaks :
      (e : DatabaseError)
      → next_fault w.session.faults ≡ some e
      → apply_retention P retention_days true w ≡ (
        raise (app (translate_database_error e)),
        record { session = record after { db = w.session.saved }; lines = w.lines ++ written },
      )
  unfolding apply_retention delete_before commit_session events_before
  breaks e fails = ground (arith, fails)

  -- With the archive on, no event is lost and none is written without being due: the events that
  -- retention writes are those from before the cutoff. If it returns, the saved events and these are
  -- together the events that were there, each once, the saved ones are not from before the cutoff,
  -- and the numbers that it returns are those of the events written; if it fails, what is saved is
  -- as it was.
  pub apply_retention-perm :
      let (r, w') = apply_retention P retention_days true w in
      (w'.lines ≡ w.lines ++ written)
      × (((result : Retained) × (r ≡ ok result)
            × Perm (w'.session.saved.audit_events ++ written) w.session.db.audit_events
            × All (λ e. not (is_before cutoff e) ≡ true) w'.session.saved.audit_events
            × (result.deleted ≡ length written)
            × (result.archived ≡ length written))
          ⊎ (e : ErrorClass) × (r ≡ raise (app e)) × (w'.session.saved ≡ w.session.saved))
  unfolding events_before
  apply_retention-perm = elim (Option-cases (next_fault w.session.faults)) [
    | inl works ↦ rw (returns works) (
      refl,
      inl (
        record { cutoff = cutoff; archived = length written; deleted = length due },
        refl,
        Perm.trans (Perm.append_left kept (order_by-perm is_older due))
            (filter_by-perm (is_before cutoff) events),
        filter_by-All (λ e. not (is_before cutoff e)) events,
        sym (length-order_by is_older due),
        refl,
      ),
    )
    | inr (e, fails) ↦ rw (breaks e fails) (refl, inr (translate_database_error e, refl, refl))
  ]
