-- ===== src/Queue/Sqlite.antt =====
-- apps/agy_queue/storage.py: `SQLiteQueueStore`, its operations and their proofs.
pub mod Table
pub mod Claim
pub mod Recover
pub mod Events
pub mod Finish
pub mod Retry
pub mod Order
pub mod Eligible
pub mod Calls
pub mod Recovery
pub mod Expiry
pub mod Moves
pub mod Runs
pub mod Claims
pub mod Starts
pub mod Fences
mod Tests
