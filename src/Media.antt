-- ===== src/Media.antt =====
-- src/services/storage/media.ts, media-paths.ts and src/utils/media-types.ts: the files of a user in
-- the media directory of an instance.
pub mod Types
pub mod Paths
pub mod Files
mod Tests
