-- ===== src/Auth.antt =====
-- The credentials that this node accepts: services/auth/ and the middleware that checks them.
pub mod Tickets
pub mod Viewer
pub mod CommandKey
pub mod NodeToken
mod Tests
