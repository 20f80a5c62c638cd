-- ===== src/Domain.antt =====
-- packages/domain/src: the rules of the game as pure functions.
pub mod Attempt
pub mod Leaderboard
pub mod Aggregates
pub mod Projections
