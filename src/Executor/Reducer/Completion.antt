-- ===== src/Executor/Reducer/Completion.antt =====
-- skills/complex-coding-executor/scripts/harness_state.py, `apply_event`: completing a stage, and completing or aborting the task.
use dev_skills.Base.{
  ℕ, Bool, false, not, ◌&&◌, Option, none, some, String, List, [], ◌∷◌, ◌++◌, ◌==◌, all, is_empty,
  subset, within, remove, Dict, lookup, keys,
}
use dev_skills.Executor.Errors.{
  Result, ok, ◌>>=◌, ◌>>◌, require, require_some, run_state_illegal_transition,
  run_state_stage_mismatch, run_state_validation_incomplete, run_state_review_incomplete,
  run_state_review_scope_mismatch, run_state_validation_target_mismatch, run_state_final_incomplete,
  run_state_final_review_incomplete,
}
use dev_skills.Executor.Review.{Scope, stage_delta, final_integration}
use dev_skills.Executor.Event.{Event, given}
use dev_skills.Executor.Contract.{Stage, definition}
use dev_skills.Executor.State.{completed, aborted, Evidence, recorded, carried, Replay}
use dev_skills.Executor.Reducer.Guards.{
  is_completed, is_in_progress, key, same_stage, same_attempt, payload_text, records_of,
}

-- the stage of the review is that of the event, and its attempt the current one
abbrev pub scope_is_current : Scope → Option String → Option ℕ → Bool
scope_is_current (stage_delta s n) stage_id attempt =
    same_stage (some s) stage_id && same_attempt (some n) attempt
scope_is_current final_integration stage_id attempt =
    same_stage none stage_id && same_attempt none attempt

-- a validation that has the target of the review and the current attempt
abbrev pub evidence_matches : String → Option ℕ → String × Evidence → Bool
evidence_matches digest attempt (id, recorded v) =
    v.target_digest == digest && same_attempt (some v.stage_attempt) attempt
evidence_matches digest attempt (id, carried) = false

-- the ids that a stage declares and the contract requires
abbrev pub required_of : Stage → List String → List String
required_of stage required = within required stage.validation_ids

unfoldable pub on_stage_completed : Dict Stage → List String → Replay → Event → Result Replay
on_stage_completed definitions required r event = do
  let stage = key event.stage_id
  let records = records_of r stage
  let attempt = lookup stage r.attempts
  require (same_stage r.current_stage_id event.stage_id) run_state_stage_mismatch
  found ← definition definitions stage
  require (subset (required_of found required) (keys records)) run_state_validation_incomplete
  review ← require_some (lookup stage r.stage_reviews) run_state_review_incomplete
  require (scope_is_current review.scope event.stage_id attempt) run_state_review_scope_mismatch
  require (all (evidence_matches review.target_digest attempt) records)
      run_state_validation_target_mismatch
  ok (record r {
    state = record r.state {
      current_stage_id = none;
      completed_stage_ids = r.completed_stage_ids ++ stage ∷ [];
      remaining_stage_ids = remove stage r.remaining_stage_ids;
    };
  })

unfoldable pub on_completed : Replay → Result Replay
on_completed r = do
  require
      (is_in_progress r.lifecycle
        && not (given r.current_stage_id)
        && is_empty r.remaining_stage_ids)
      run_state_final_incomplete
  require (given r.final_review) run_state_final_review_incomplete
  ok (record r { state = record r.state { lifecycle = completed } })

unfoldable pub on_aborted : Replay → Event → Result Replay
on_aborted r event = do
  require (not (is_completed r.lifecycle)) run_state_illegal_transition
  reason ← payload_text "reason" event.payload
  ok (record r { state = record r.state { lifecycle = aborted } })
