-- ===== src/Threads.antt =====
-- The update of a help thread: app/api/threads/update_thread.go, app/api/threads/threads.go and
-- app/database/thread.go.
pub mod Status
pub mod Input
pub mod Update
pub mod Saving
pub mod Guarantees
pub mod Transitions
pub mod Opening
pub mod Counts
mod Examples
