-- ===== src/Channels.antt =====
-- pkg/channels
pub mod Split
