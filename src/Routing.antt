-- ===== src/Routing.antt =====
-- pkg/routing
pub mod AgentId
pub mod SessionKey
pub mod Config
pub mod Route
mod Tests
