-- ===== src/Tasks.antt =====
-- internal/tasks: background tasks of the administration.
pub mod Store
pub mod Slots
pub mod Runner
