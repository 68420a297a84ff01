-- ===== src/Chat.antt =====
-- Messages between two users: src/fb/domain/chat, src/fb/application/chat and
-- src/fb/infrastructure/repositories/message_repo.py, with the cursors of
-- src/fb/domain/shared/pagination.py.
pub mod Entities
pub mod Cursor
pub mod Repository
pub mod Messages
pub mod Order
pub mod Pages
pub mod Sending
pub mod Reading
pub mod Tests
