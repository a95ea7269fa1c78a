-- ===== src/Matching.antt =====
-- matching/rule_engine.py and domain/matching (app): the score of a job against the preferences.
pub mod Rules
pub mod Scores
