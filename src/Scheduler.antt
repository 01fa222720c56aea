-- ===== src/Scheduler.antt =====
-- plugins/scheduler: schedules, their occurrences and their management.
pub mod Management
pub mod Schedule
mod Tests
