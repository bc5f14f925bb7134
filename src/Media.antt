-- ===== src/Media.antt =====
-- internal/media: the cache of decoded thumbnails and the tracker of the visible ones.
pub mod Cache
pub mod Tracker
