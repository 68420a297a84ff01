-- ===== src/Auth.antt =====
-- Users, their tokens and their passwords: src/fb/domain/auth, src/fb/application/auth,
-- src/fb/infrastructure/auth and src/fb/infrastructure/repositories/user_repo.py.
pub mod Values
pub mod Entities
pub mod Repository
pub mod Tokens
pub mod Accounts
pub mod Sessions
pub mod Outcomes
pub mod Editing
pub mod Registration
pub mod Names
pub mod Signing
pub mod Revocation
pub mod Samples
pub mod Tests
