-- ===== src/Media.antt =====
-- pkg/media
pub mod Store
