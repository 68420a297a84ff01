-- ===== src/Profile.antt =====
-- Profiles: src/fb/domain/profile, src/fb/application/profile, and their repository.
pub mod Entities
pub mod Repository
pub mod Editing
pub mod Writing
pub mod Outcomes
pub mod Tests
