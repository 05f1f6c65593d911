-- ===== src/Executor/Reducer.antt =====
-- skills/complex-coding-executor/scripts/harness_state.py: `apply_event`, one function for each
-- event type, and `replay_events`. The source mutates its arguments and raises; a replay that
-- raises is given up as a whole, so each handler returns the new values or the error.
pub mod Guards
pub mod Stages
pub mod Records
pub mod Completion
pub mod Stops
pub mod Amendment
pub mod Commits
