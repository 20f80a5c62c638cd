-- ===== src/Web.antt =====
-- The browser application (apps/web).
pub mod Retry
pub mod LatestRead
