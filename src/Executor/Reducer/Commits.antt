-- ===== src/Executor/Reducer/Commits.antt =====
-- skills/complex-coding-executor/scripts/harness_state.py, `apply_event`: recording a commit.
use dev_skills.Base.{
  Bool, false, not, ◌&&◌, Option, none, some, String, ◌==◌, leb, all, any, length, is_empty, mem,
  Dict, get, as_str, codes, is_hex,
}
use dev_skills.Executor.Errors.{
  Result, ok, ◌>>=◌, ◌>>◌, require, run_state_illegal_transition, run_state_commit_evidence_invalid,
  run_state_commit_timing_invalid,
}
use dev_skills.Executor.Event.{Event, given}
use dev_skills.Executor.Contract.{Stage, definition}
use dev_skills.Executor.State.{Replay}
use dev_skills.Executor.Reducer.Guards.{is_in_progress, payload_text}

abbrev is_commit_hash : Option String → Bool
is_commit_hash none = false
is_commit_hash (some s) = let n = length (codes s) in leb 7 n && leb n 64 && all is_hex (codes s)

unfoldable pub record_commit : Dict Stage → Replay → Option String → Result Replay
record_commit definitions r none = do
  require
      (any (λ (id, item). item.commit_expectation == "final") definitions
        && not (given r.current_stage_id)
        && is_empty r.remaining_stage_ids)
      run_state_commit_timing_invalid
  ok (record r { final_review = none })
record_commit definitions r (some stage) = do
  found ← definition definitions stage
  require (found.commit_expectation == "stage" && mem stage r.completed_stage_ids)
      run_state_commit_timing_invalid
  ok r

unfoldable pub on_commit_recorded : Dict Stage → Replay → Event → Result Replay
on_commit_recorded definitions r event = do
  require (is_in_progress r.lifecycle) run_state_illegal_transition
  require (is_commit_hash (as_str (get "commit" event.payload))) run_state_commit_evidence_invalid
  repository ← payload_text "repository" event.payload
  record_commit definitions r event.stage_id
