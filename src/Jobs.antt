-- ===== src/Jobs.antt =====
-- The durable job system: jobs/*.py, with backend/recovery.py, which re-queues its jobs.
pub mod Models
pub mod State
pub mod Records
pub mod Steps
pub mod Service
pub mod Execution
pub mod Supervision
pub mod Recovery
pub mod Registry
pub mod Worker
pub mod Statuses
pub mod Claiming
pub mod Coherence
pub mod Liveness
pub mod Ending
pub mod Outcome
pub mod Progress
pub mod Writes
pub mod Restart
pub mod Choice
pub mod Calls
pub mod Listings
pub mod Maintenance
mod Tests
