-- ===== src/Cache.antt =====
-- src/services/cache/: what the node keeps in memory of rest-api's answers.
pub mod Single
pub mod Secrets
mod Tests
