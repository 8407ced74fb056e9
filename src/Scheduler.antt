-- ===== src/Scheduler.antt =====
-- internal/scheduler: which account takes a request.
pub mod Config
pub mod Select
pub mod Cache
pub mod Session
pub mod Unavailable
pub mod Pick
