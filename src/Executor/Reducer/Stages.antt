-- ===== src/Executor/Reducer/Stages.antt =====
-- skills/complex-coding-executor/scripts/harness_state.py, `apply_event`: starting the execution, starting a stage, and a failed attempt.
use dev_skills.Base.{
  ℕ, ◌+◌, not, Option, none, some, String, nat_eq, if◌then◌else◌, subset, Dict, lookup, insert,
  delete, get_or,
}
use dev_skills.Executor.Errors.{
  Result, ok, ◌>>=◌, ◌>>◌, require, run_state_illegal_transition, run_state_stage_already_active,
  run_state_stage_not_remaining, run_state_stage_dependency, run_state_attempt_sequence,
  run_state_stage_mismatch,
}
use dev_skills.Executor.Event.{Event, given}
use dev_skills.Executor.Contract.{Stage, definition}
use dev_skills.Executor.State.{in_progress, Replay}
use dev_skills.Executor.Reducer.Guards.{
  is_approved, is_in_progress, key, same_stage, same_attempt, mem_stage, payload_text,
}

unfoldable pub on_execution_started : Replay → Result Replay
on_execution_started r = do
  require (is_approved r.lifecycle) run_state_illegal_transition
  ok (record r { state = record r.state { lifecycle = in_progress } })

-- A second or later attempt starts without the evidence of the earlier ones.
abbrev pub expected_attempt : Replay → Option String → ℕ
expected_attempt r stage_id = get_or (key stage_id) 0 r.attempts + 1

unfoldable pub on_stage_started : Dict Stage → Replay → Event → Result Replay
on_stage_started definitions r event = do
  let stage = key event.stage_id
  let attempt = expected_attempt r event.stage_id
  let fresh = nat_eq attempt 1
  require (is_in_progress r.lifecycle) run_state_illegal_transition
  require (not (given r.current_stage_id)) run_state_stage_already_active
  require (mem_stage event.stage_id r.remaining_stage_ids) run_state_stage_not_remaining
  found ← definition definitions stage
  require (subset found.depends_on r.completed_stage_ids) run_state_stage_dependency
  require (same_attempt event.attempt (some attempt)) run_state_attempt_sequence
  ok (record r {
    state = record r.state { current_stage_id = event.stage_id };
    attempts = insert stage attempt r.attempts;
    passed_validations = if fresh then r.passed_validations else delete stage r.passed_validations;
    stage_reviews = if fresh then r.stage_reviews else delete stage r.stage_reviews;
  })

unfoldable pub on_attempt_failed : Replay → Event → Result Replay
on_attempt_failed r event = do
  let stage = key event.stage_id
  require (same_stage r.current_stage_id event.stage_id) run_state_stage_mismatch
  require (same_attempt event.attempt (lookup stage r.attempts)) run_state_attempt_sequence
  reason ← payload_text "reason" event.payload
  impact ← payload_text "impact" event.payload
  strategy ← payload_text "next_strategy" event.payload
  ok (record r {
    state = record r.state { current_stage_id = none };
    passed_validations = delete stage r.passed_validations;
    stage_reviews = delete stage r.stage_reviews;
  })
