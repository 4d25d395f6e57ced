-- ===== src/Examples.antt =====
-- Concrete servers, submissions and jobs, and the theorems at work on them.
mod States
mod Admission
mod Selection
mod Scripts
mod Worker
mod Reading
mod Cron
mod Sync
mod Histories
mod Gemini
mod Starts
mod Locks
mod Server
mod Wire
mod Stop
mod Maintenance
