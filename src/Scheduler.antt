-- ===== src/Scheduler.antt =====
-- src/scheduler/ and src/scheduler.ts: repeatable triggers, scheduled backups, retention.
pub mod Retention
pub mod Triggers
pub mod Kept
pub mod Skipped
