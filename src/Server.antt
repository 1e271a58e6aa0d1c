-- ===== src/Server.antt =====
-- internal/server: the control plane's operations on its chart, its rows and its messages.
pub mod Schedules
pub mod State
pub mod Keeps
pub mod Routing
pub mod Workers
pub mod Deletion
pub mod Reload
pub mod Scheduler
mod Tests
