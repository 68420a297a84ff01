-- ===== src/Cache.antt =====
-- What is kept in Redis: src/fb/infrastructure/cache. A server is a parameter.
pub mod KeyValue
pub mod TokenBlacklist
pub mod Keys
pub mod RedisCache
pub mod CacheService
pub mod Tests
