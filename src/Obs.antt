-- ===== src/Obs.antt =====
-- src/services/obs/: what the node sends to the OBS of an instance.
pub mod Commands
pub mod Stats
pub mod Listener
mod Tests
