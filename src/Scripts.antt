-- ===== src/Scripts.antt =====
-- The scripts that run beside the application: scripts/wait_for_db.py.
pub mod WaitForDb
