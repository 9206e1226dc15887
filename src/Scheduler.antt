-- ===== src/Scheduler.antt =====
-- internal/scheduler/scheduler.go: when a job runs next.
pub mod Cron
pub mod Next
mod Examples
