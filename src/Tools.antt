-- ===== src/Tools.antt =====
-- pkg/tools
pub mod Registry
