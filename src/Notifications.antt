-- ===== src/Notifications.antt =====
-- domain/notifications, repositories/notifications.py, notifications/base.py and
-- workers/notifications.py (app): deliveries, and the retries of a worker.
pub mod Deliveries
pub mod Delivered
pub mod Providers
pub mod Telegram
pub mod Worker
