-- ===== src/Follow.antt =====
-- Who follows whom: src/fb/domain/follow, src/fb/application/follow and
-- src/fb/infrastructure/repositories/follow_repo.py.
pub mod Repository
pub mod Following
pub mod Outcomes
pub mod Invariant
pub mod Lists
pub mod Tests
