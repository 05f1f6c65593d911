-- ===== src/Manager.antt =====
-- skills/process-manager/scripts/process_manager: the central state of runs and sessions.
pub mod Errors
pub mod State
pub mod Runs
pub mod Fence
pub mod History
pub mod Leases
pub mod Steps
pub mod Closing
pub mod Sweep
mod Tests
