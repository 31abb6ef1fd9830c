-- ===== src/Crons.antt =====
-- The crons of internal/crons: store.go and the tick of scheduler.go.
pub mod Rows
pub mod Patch
pub mod Next
pub mod Firing
pub mod Patching
pub mod Scheduler
pub mod Defaults
pub mod Search
pub mod Shown
