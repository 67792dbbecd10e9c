-- ===== src/Proxy.antt =====
-- src/services/proxy/: the proxies between the browser and an instance's container.
pub mod Relay
pub mod Selkies
pub mod Requests
pub mod Upstream
pub mod Handler
pub mod Sockets
mod Tests
mod ViewerTests
