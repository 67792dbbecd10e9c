-- ===== src/Media/Files/Laws.antt =====
-- What an upload leaves, on every branch.
pub mod Received
pub mod Outcome
