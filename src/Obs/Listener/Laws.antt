-- ===== src/Obs/Listener/Laws.antt =====
-- What holds of the listener between any two events, and what follows from it.
pub mod Invariant
pub mod Steps
pub mod Histories
pub mod Watching
pub mod Silence
pub mod Late
pub mod Syncing
