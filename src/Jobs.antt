-- ===== src/Jobs.antt =====
-- Background work: the executor of src/jobs.
pub mod Executor
