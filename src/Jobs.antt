-- ===== src/Jobs.antt =====
-- jobs/run_batch.py, control/batch_runs.py: the command that runs the stages of a batch.
pub mod Trace
pub mod Args
pub mod Safe
pub mod Current
pub mod RunMode
pub mod Main
pub mod Closed
pub mod Sessions
pub mod Locks
pub mod Guarded
pub mod Statuses
pub mod Order
pub mod Skip
pub mod Fresh
mod Tests
