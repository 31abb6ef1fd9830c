-- ===== src/Service.antt =====
-- internal/runs/service.go and internal/runs/reaper.go: the RPC handlers over the store, with the
-- commands that they send to Redis.
pub mod Signals
pub mod Handlers
pub mod Publish
pub mod Delivery
