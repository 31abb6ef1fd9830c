-- ===== src/Runs.antt =====
-- internal/runs: the run table, its operations, and what they keep.
pub mod Model
pub mod Query
pub mod Lease
pub mod Cancel
pub mod Create
pub mod Insert
pub mod Rows
pub mod Claims
pub mod Isolation
pub mod Cancelling
pub mod Cancelled
pub mod Finished
pub mod Tables
pub mod Effects
pub mod Steps
pub mod Sweeping
pub mod Recovery
pub mod Creating
pub mod Strategies
pub mod Fencing
pub mod Visibility
