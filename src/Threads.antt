-- ===== src/Threads.antt =====
-- The threads of internal/threads: store.go, service.go and ttl.go.
pub mod Query
pub mod Rows
pub mod Status
pub mod Expiry
pub mod Visibility
pub mod Deleting
pub mod Sweeping
pub mod Busy
pub mod Pages
pub mod Created
pub mod Guard
pub mod Handlers
pub mod Copies
