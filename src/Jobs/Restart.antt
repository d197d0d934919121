-- ===== src/Jobs/Restart.antt =====
-- Recovery after a restart (jobs/service.py).
pub mod Refreshing
pub mod Interrupting
pub mod Recovering
