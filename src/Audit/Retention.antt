-- ===== src/Audit/Retention.antt =====
-- domain/audit/service.py (app): `apply_retention`. The archive is the list of the events that were
-- written to its files, one line of JSON for each; it stands beside the session, which rolls back
-- without it. Failures of the file system are not modelled.
use job_finder_agent.Common.{
  ℕ, ◌-◌, Bool, not, List, ◌++◌, ltb, filter_by, length, order_by, if◌then◌else◌,
}
use job_finder_agent.Session.{
  Action, Session, Result, ◌>>=◌, ◌>>◌, pure, query, modify, draw, commit_session,
}
use job_finder_agent.Auth.Models.{AuditEvent, Identity}
use job_finder_agent.Auth.Platform.{Platform}
use job_finder_agent.Auth.Security.{days}

abbrev pub is_before : ℕ → AuditEvent → Bool
is_before cutoff e = ltb e.created_at cutoff

abbrev pub is_older : AuditEvent → AuditEvent → Bool
is_older a b = ltb a.created_at b.created_at

-- `AuditRepository.before`
unfoldable pub events_before : ℕ → Identity → List AuditEvent
events_before cutoff d = order_by is_older (filter_by (is_before cutoff) d.audit_events)

-- `AuditRepository.delete_before`, with the number of rows.
unfoldable pub delete_before : ℕ → Action Identity ℕ
delete_before cutoff = do
  deleted ← query (λ d. length (filter_by (is_before cutoff) d.audit_events))
  modify (λ d. record d { audit_events = filter_by (λ e. not (is_before cutoff e)) d.audit_events })
  commit_session
  pure deleted

-- What `apply_retention` returns but for the archive's path, which it names by the cutoff's day.
pub record Retained : Type 0 where
  pub cutoff : ℕ
  pub archived : ℕ
  pub deleted : ℕ

pub record Archive : Type 0 where
  pub session : Session Identity
  pub lines : List AuditEvent

-- Moments lie more than the retained days after the moment zero.
unfoldable pub apply_retention : Platform → ℕ → Bool → Archive → Result Retained × Archive
unfolding events_before delete_before
apply_retention P retention_days archive_enabled w =
    let cutoff = P.now w.session.ticks - days retention_days in
    let events = events_before cutoff w.session.db in
    let (r, s) =
      (do
        now ← draw P.now
        deleted ← delete_before (now - days retention_days)
        pure (record {
          cutoff = now - days retention_days;
          archived = if archive_enabled then length events else 0;
          deleted = deleted;
        }))
        w.session in
    (r, record { session = s; lines = if archive_enabled then w.lines ++ events else w.lines })
