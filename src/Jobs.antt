-- ===== src/Jobs.antt =====
-- The bookkeeping of scheduled jobs (backend/app/jobs/runner.py).
pub mod Runner
pub mod Recorded
mod Examples
