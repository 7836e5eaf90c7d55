-- ===== src/Agent.antt =====
-- pkg/agent
pub mod Budget
pub mod Steering
