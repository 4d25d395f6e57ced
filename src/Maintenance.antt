-- ===== src/Maintenance.antt =====
-- scripts/: what an operator runs by hand.
pub mod Cleanup
pub mod Admin
