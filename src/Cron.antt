-- ===== src/Cron.antt =====
-- The jobs of cron/.
pub mod Expire
pub mod Locks
pub mod Schedule
pub mod Reload
pub mod Sync
