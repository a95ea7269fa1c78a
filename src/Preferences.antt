-- ===== src/Preferences.antt =====
-- domain/preferences (app): the preferences of a user, their validation and their stored versions.
pub mod Schemas
pub mod Validation
pub mod Store
pub mod Versions
