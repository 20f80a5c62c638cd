-- ===== src/Cache.antt =====
-- What is stored in Redis (packages/cache).
pub mod SuggestionIndex
pub mod Limiter
