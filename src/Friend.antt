-- ===== src/Friend.antt =====
-- Friend requests and friendships: src/fb/domain/friend, src/fb/application/friend and
-- src/fb/infrastructure/repositories/friend_repo.py.
pub mod Entities
pub mod Repository
pub mod Requests
pub mod Unfriending
pub mod Invariant
pub mod Outcomes
pub mod Acceptance
pub mod Rows
pub mod Soundness
pub mod Endpoints
pub mod Tests
