-- ===== src/RateLimiter.antt =====
-- The limit on requests per minute: src/fb/presentation/middleware/rate_limiter.py.
pub mod Counters
pub mod Identity
pub mod Middleware
pub mod Window
pub mod Bucket
pub mod Tests
