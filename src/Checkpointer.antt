-- ===== src/Checkpointer.antt =====
-- The checkpoints of internal/checkpointer/store.go.
pub mod Rows
pub mod Reads
pub mod Copying
pub mod Stored
pub mod Copied
pub mod View
pub mod Json
pub mod Messages
pub mod Values
pub mod Handlers
pub mod Coding
pub mod Loading
pub mod Holding
pub mod Readable
pub mod Steps
pub mod Channels
pub mod Blobs
pub mod Readback
pub mod Sent
