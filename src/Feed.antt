-- ===== src/Feed.antt =====
-- The feed: src/fb/application/post/get_feed.py, src/fb/domain/post/feed_scoring.py and affinity.py,
-- and src/fb/infrastructure/repositories/feed_repo.py.
pub mod Repository
pub mod Scoring
pub mod Reading
pub mod Members
pub mod Ranking
pub mod Tests
