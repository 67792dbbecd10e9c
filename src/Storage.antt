-- ===== src/Storage.antt =====
-- src/services/storage/: the config of an instance, mirrored between its directory and S3, and the
-- requests to S3.
pub mod Sync
pub mod Push
pub mod Policy
pub mod Pull
pub mod Objects
mod Tests
mod PullTests
mod ObjectsTests
