-- ===== src/Auth.antt =====
-- Accounts, tokens and sessions: domain/auth, repositories/auth.py, auth/ and dependencies/auth.py
-- (app).
pub mod Models
pub mod Platform
pub mod Repository
pub mod Security
pub mod Service
pub mod Access
pub mod Lockout
pub mod Rotation
pub mod Replays
pub mod Sessions
pub mod Passwords
pub mod Identification
pub mod Registration
