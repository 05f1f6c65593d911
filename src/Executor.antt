-- ===== src/Executor.antt =====
-- skills/complex-coding-executor/scripts: the task ledger, its reducer and its checks.
pub mod Errors
pub mod Validation
pub mod Review
pub mod Time
pub mod Event
pub mod Contract
pub mod State
pub mod Reducer
pub mod Ledger
pub mod Snapshot
pub mod Gate
pub mod Tests
