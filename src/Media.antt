-- ===== src/Media.antt =====
-- Uploaded images and videos: src/fb/domain/media, src/fb/application/media,
-- src/fb/infrastructure/repositories/media_repo.py, and the attachments of posts of
-- src/fb/domain/post/media.py.
pub mod Entities
pub mod Repository
pub mod Uploads
pub mod Processing
pub mod Outcomes
pub mod Settled
pub mod Ranges
pub mod Streaming
pub mod Tests
