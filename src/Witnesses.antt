-- ===== src/Witnesses.antt =====
-- The theorems at concrete data: a small document store in place of PostgreSQL, three threads, and
-- runs of internal/runs/store.go on them.
mod Documents
mod AuthRuns
mod LeaseRuns
mod Changes
mod CacheTenants
mod ThreadRuns
mod CronRuns
mod CheckpointRuns
mod CheckpointTrips
mod AssistantRuns
