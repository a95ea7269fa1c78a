-- ===== src/Auth/Service.antt =====
-- domain/auth/service.py (app): `AuthService`.
mod Accounts
mod Tokens
mod Codes
unfoldable pub use Accounts.*
unfoldable pub use Tokens.*
unfoldable pub use Codes.*
