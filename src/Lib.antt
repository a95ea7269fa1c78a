-- ===== src/Lib.antt =====
-- Job Radar Agent (app): a service that collects job postings from sources, matches them against a
-- user's preferences and notifies the user. This library models the parts of it that decide, each as
-- functions that can be run, and proves what makes them correct.
--
-- The parts, by module:
--   Common         Boolean tests, lists, tables of rows with the queries of the repositories, and the
--                  methods of Python's texts, which are a parameter where they stand on Unicode.
--   Errors         app/errors: the classes of errors, their status codes and responses, and the
--                  translation of database exceptions.
--   Session        app/errors/database.py: a database session with pending and saved rows, whose
--                  commits and flushes may fail; every repository and service below acts on one.
--   Auth           app/domain/auth, app/repositories/auth.py, app/auth/security.py and
--                  app/dependencies/auth.py: users, roles, passwords, refresh tokens, sessions, codes,
--                  and the user of a request. Service has the operations; Lockout, Rotation, Replays, Sessions,
--                  Passwords, Identification and Registration have the theorems.
--   Audit          app/domain/audit and app/repositories/audit.py: the events that are written down, their
--                  search, and the retention that archives and deletes old ones.
--   Application    app/main.py, app/observability/logging.py and metrics.py: the middleware that every
--                  request passes, in its order, the identifier of a request and the counters.
--   Backup         app/backup/service.py: backups, their verification and their retention, over a
--                  directory of files.
--   Api            app/api/responses.py and, of app/api/v1, auth.py, jobs.py, audit.py, runs.py,
--                  notifications.py and preferences.py, the start of a run in sources.py, and
--                  app/api/v2/preferences.py: the endpoints over the services. Audited has what those of
--                  auth.py share; Recorded, Logout, Admin and Reset have the theorems.
--   Database       all tables, for what acts on more than one part.
--   Deletion       app/domain/preferences/deletion_service.py and app/api/v1/users.py, with the foreign
--                  keys of the models: what goes with a user.
--   Sources        app/domain/jobs/source_service.py, the creation and the listing in
--                  app/repositories/sources.py, and their endpoints: the sources of a user.
--   Release        scripts/release_notes.py: the notes from the subjects of commits.
--   RateLimit      app/observability/rate_limit.py, and the CSRF check and the security headers of
--                  app/observability/security.py.
--   Preferences    app/domain/preferences and app/repositories/preferences.py: validation, and the
--                  versions of a user's preferences.
--   Matching       app/matching/rule_engine.py: the score and the decision for a job.
--   Notifications  app/domain/notifications, app/repositories/notifications.py and
--                  app/workers/notifications.py: deliveries, and the two loops of retries, the one of
--                  app/ingestion/base.py included. Providers has app/notifications: the message of a
--                  match, and what sends it.
--   Ingestion      app/domain/jobs, app/repositories/jobs.py, app/repositories/sources.py and
--                  app/scheduler/service.py: normalized jobs, their storage, runs, and due sources, and
--                  app/processes/scheduler.py, which hands the due ones to the workers. Workers has
--                  app/workers/tasks/ingestion.py, and Adapters the two adapters of app/ingestion
--                  over the replies of a source.
--   Jobs           app/repositories/job_query.py, app/domain/jobs/query_service.py and
--                  app/domain/matching/service.py: the jobs that a user sees, the feedback on them, and
--                  their matches.
--   Tests          the properties below at concrete inputs.
--
-- How the code is rendered. A coroutine is a function of the session that returns its result or the
-- exception it raises, and the session after it; interleavings of two coroutines are not modelled. What
-- comes from outside is a parameter: the clock, random values, hashes, JSON web tokens, Redis, the
-- replies of sources, the providers and floating-point scaling. A value that is drawn from outside is
-- a function of the number of draws before it (`ticks`), and the failures of the database are a list
-- that its calls consume (`faults`). UUIDs and moments are numbers. A table is the list of its rows.
--
-- Bounds. The chain of base classes of an error is searched for four steps, more than the hierarchy
-- has. All loops are structural: `with_retries` and `run_with_dead_letter` recurse on the attempts that
-- are left, and the adapters on the pages that are left.
--
-- Not modelled: the wiring of the dependencies and the routes that answer a constant; the text of logs,
-- metrics, archives and downloads, and tracing; the CORS middleware and the router, which are the
-- handler of a request; the processes that repeat one operation, and the command lines. The matchers
-- beside the rules are files without code. Left out as well are the failures of the file system, but for
-- the writing of a backup's checksum and metadata, the addresses that the adapters ask, and records
-- whose fields are no texts, on which the normalizer raises. Where a query asks for no order, the rows come
-- in the order of their table. The migrations repeat the tables of the models.
pub mod Common
pub mod Errors
pub mod Session
pub mod Auth
pub mod Audit
pub mod Backup
pub mod Api
pub mod Application
pub mod Database
pub mod Deletion
pub mod RateLimit
pub mod Release
pub mod Preferences
pub mod Matching
pub mod Notifications
pub mod Ingestion
pub mod Jobs
pub mod Sources
pub mod Tests
