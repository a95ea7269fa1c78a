-- ===== src/Errors.antt =====
-- errors/ (app): the exception classes, their translation to HTTP responses, and the translation of
-- database exceptions.
pub mod Exceptions
pub mod Classes
pub mod Status
pub mod Handlers
pub mod Responses
pub mod Codes
pub mod Database
pub mod Translation
pub mod Validation
