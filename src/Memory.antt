-- ===== src/Memory.antt =====
-- pkg/memory
pub mod Lines
pub mod Codec
pub mod Store
pub mod Keys
pub mod Tests
