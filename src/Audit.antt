-- ===== src/Audit.antt =====
-- domain/audit/service.py and repositories/audit.py (app): the log of audit events.
pub mod Log
pub mod Retention
pub mod Fits
pub mod Pages
pub mod Kept
