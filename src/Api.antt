-- ===== src/Api.antt =====
-- The application programming interface (apps/api).
pub mod RateLimit
pub mod Sources
pub mod Cookies
