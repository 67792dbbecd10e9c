-- ===== src/Proxy/Selkies/Laws.antt =====
-- Whose sessions the requests of the viewer get.
pub mod Invariant
pub mod Access
pub mod Joining
