-- ===== src/Executor/Reducer/Records.antt =====
-- skills/complex-coding-executor/scripts/harness_state.py, `apply_event`: recording a validation and a review.
use dev_skills.Base.{
  Bool, true, false, not, ◌&&◌, none, some, String, if◌then◌else◌, is_empty, mem, Dict, lookup,
  insert, delete, obj,
}
use dev_skills.Executor.Errors.{
  Result, ok, ◌>>=◌, ◌>>◌, require, run_state_attempt_sequence, run_state_stage_mismatch,
  run_state_validation_unknown, run_state_review_timing_invalid,
}
use dev_skills.Executor.Validation.{passed, ValidationRecord, validate_validation_record}
use dev_skills.Executor.Review
use dev_skills.Executor.Review.{
  ReviewRecord, Scope, stage_delta, final_integration, validate_review_record,
}
use dev_skills.Executor.Event.{Event, given}
use dev_skills.Executor.Contract.{Stage, definition}
use dev_skills.Executor.State.{recorded, Replay}
use dev_skills.Executor.Reducer.Guards.{is_in_progress, key, same_stage, same_attempt, records_of}

-- a passed validation is kept; any other takes the earlier pass and the review away
abbrev pub record_validation : Replay → String → ValidationRecord → Replay
record_validation r stage validation = elim validation.result [
  | passed ↦ record r {
    passed_validations =
        insert stage (insert validation.validation_id (recorded validation) (records_of r stage))
          r.passed_validations;
  }
  | _ ↦ record r {
    passed_validations =
        insert stage (delete validation.validation_id (records_of r stage)) r.passed_validations;
    stage_reviews = delete stage r.stage_reviews;
  }
]

unfoldable pub on_validation_recorded : Dict Stage → Replay → Event → Result Replay
on_validation_recorded definitions r event = do
  let stage = key event.stage_id
  require (same_stage r.current_stage_id event.stage_id) run_state_stage_mismatch
  validation ← validate_validation_record (obj event.payload) event.attempt
  require (same_attempt event.attempt (lookup stage r.attempts)) run_state_attempt_sequence
  found ← definition definitions stage
  require (mem validation.validation_id found.validation_ids) run_state_validation_unknown
  ok (record_validation r stage validation)

-- `kind == "stage-delta"`
abbrev pub is_delta : Scope → Bool
is_delta (stage_delta s n) = true
is_delta final_integration = false

unfoldable pub on_stage_review : Replay → Event → ReviewRecord → Result Replay
on_stage_review r event compact = do
  let stage = key event.stage_id
  require (same_stage r.current_stage_id event.stage_id) run_state_stage_mismatch
  require (same_attempt event.attempt (lookup stage r.attempts)) run_state_attempt_sequence
  ok (record r {
    stage_reviews =
        if Review.is_passed compact.verdict
        then insert stage compact r.stage_reviews
        else delete stage r.stage_reviews;
  })

unfoldable pub on_final_review : Replay → ReviewRecord → Result Replay
on_final_review r compact = do
  require
      (is_in_progress r.lifecycle
        && not (given r.current_stage_id)
        && is_empty r.remaining_stage_ids)
      run_state_review_timing_invalid
  ok (record r { final_review = if Review.is_passed compact.verdict then some compact else none })

unfoldable pub on_review_recorded : Replay → Event → Result Replay
on_review_recorded r event = do
  compact ← validate_review_record (obj event.payload) event.stage_id event.attempt
  if is_delta compact.scope then on_stage_review r event compact else on_final_review r compact
