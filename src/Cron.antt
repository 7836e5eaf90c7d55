-- ===== src/Cron.antt =====
-- pkg/cron
pub mod Job
pub mod Service
