-- ===== src/Ingestion.antt =====
-- domain/jobs, repositories/jobs.py, repositories/sources.py, ingestion/models.py and
-- scheduler/service.py (app): fetched jobs and their storage, runs, and when a source is due.
pub mod Jobs
pub mod Runs
pub mod Service
pub mod Counts
pub mod Ends
pub mod Fetches
pub mod Again
pub mod Schedule
pub mod Due
pub mod Scheduler
pub mod Dispatched
pub mod Queued
pub mod Adapters
pub mod Workers
pub mod Ended
