-- ===== src/RateLimit.antt =====
-- observability/rate_limit.py (app): the limiter with fixed windows and the middleware around it.
pub mod Limiter
pub mod Middleware
pub mod Windows
pub mod Guard
pub mod Headers
pub mod Secured
