-- ===== src/Scheduler.antt =====
-- crates/scheduler: when a job runs.
pub mod Cron
pub mod State
mod Tests
