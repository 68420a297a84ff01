-- ===== src/Notification.antt =====
-- Notifications: src/fb/domain/notification, src/fb/application/notification and
-- src/fb/infrastructure/repositories/notification_repo.py.
pub mod Entities
pub mod Repository
pub mod Inbox
pub mod Service
pub mod Outcomes
pub mod Unread
pub mod Endpoints
pub mod Tests
