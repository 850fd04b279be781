-- ===== src/Job.antt =====
-- The background jobs of swx_core/services/job/job_runner.py and swx_core/models/job.py.
pub mod Model
pub mod Runner
pub mod Steps
pub mod Invariants
pub mod Locking
pub mod Retries
pub mod Stale
mod Tests
