-- ===== src/Instances.antt =====
-- src/services/instances/ and the clients that it calls: bringing an instance's container up,
-- stopping it, deleting it, and the sweep that stops instances without a plan.
pub mod Services
pub mod Start
pub mod Samples
mod Tests
pub mod Create
pub mod Stop
