-- ===== src/Queue.antt =====
-- apps/agy_queue: the durable queue of agent jobs.
pub mod Models
pub mod Rows
pub mod Lifecycle
pub mod Jobs
pub mod Sqlite
pub mod Jsonl
