-- ===== src/Assistants.antt =====
-- The assistants of internal/assistants: store.go and service.go.
pub mod Query
pub mod Rows
pub mod Patch
pub mod Latest
pub mod Places
pub mod History
pub mod Kept
pub mod Added
pub mod Reached
pub mod Revision
pub mod Rollback
pub mod Filtered
pub mod Handlers
