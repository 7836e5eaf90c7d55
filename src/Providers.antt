-- ===== src/Providers.antt =====
-- pkg/providers
pub mod Reason
pub mod ModelRef
pub mod Cooldown
pub mod Regex
pub mod Classifier
pub mod Fallback
