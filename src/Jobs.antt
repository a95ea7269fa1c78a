-- ===== src/Jobs.antt =====
-- domain/jobs/query_service.py, domain/matching/service.py and their repositories (app): what a user
-- sees of the jobs, what a user says of them, and how they are matched.
pub mod Query
pub mod Match
pub mod Listing
pub mod Isolation
pub mod Feedback
pub mod Matched
