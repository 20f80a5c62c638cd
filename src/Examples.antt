-- ===== src/Examples.antt =====
-- Runs of the models, and each result at a concrete input.
mod Attempts
mod Boards
mod Gameplay
mod Limits
mod Retries
mod Pages
mod Requests
mod Suggestions
mod Indexes
mod Sessions
mod Reads
mod SharedLimits
mod Profiles
