-- ===== src/Executor/Gate.antt =====
-- skills/complex-coding-executor/scripts/harness_execution.py: the gates in front of a run, of a
-- transition and of the final report, and the repair of a snapshot. What the other checkers say of
-- a task bundle (attestation, ledger file, dependencies, review gate, pointer) stands in the bundle.
pub mod Accepts
pub mod Repairs
use dev_skills.Base.{
  ℕ, Bool, true, false, not, ◌&&◌, ◌||◌, Option, none, some, String, List, [], ◌∷◌, ◌++◌, nat_eq,
  ltb, leb, any, is_empty, subset, map, keys, if◌then◌else◌, Json, Fields, get, is_none, as_obj,
}
use dev_skills.Executor.Errors.{
  Error, state_error, Result, ok, err, ◌>>=◌, ◌>>◌, require, require_some, run_state_drift,
  run_state_blocked, run_state_not_executable, run_state_stage_active, run_state_not_started,
  run_state_reapproval_required, run_state_ahead_of_ledger, run_state_final_incomplete,
  run_state_review_incomplete, run_state_final_review_incomplete, attestation_commit_denied,
  run_state_commit_evidence_missing, task_pointer_not_closed,
}
use dev_skills.Executor.Review.{ReviewRecord}
use dev_skills.Executor.Event.{given}
use dev_skills.Executor.Contract.{Contract}
use dev_skills.Executor.State.{RunState, Replay, is_commit, commit_evidence_gaps}
use dev_skills.Executor.Reducer.Guards.{is_terminal, is_approved, is_blocked, is_completed}
use dev_skills.Executor.Ledger.{replay_events}
use dev_skills.Executor.Snapshot.{File, holding, state_json, load_state, state_differences}

pub record Attestation : Type 0 where
  pub approved_at : String
  pub commit_authorized : Bool

-- A bundle, with the answers of the checkers that are not modelled here.
pub record Bundle : Type 0 where
  pub contract : Contract
  pub attestation : Result Attestation
  pub ledger : Result (List Fields)
  pub snapshot : File
  pub dependencies_hold : Result (Unit {0})
  -- for the final review, and whether the final commit is recorded
  pub review_gate : ReviewRecord → Bool → Result (Unit {0})
  pub pointer_targets_bundle : Result Bool

-- `replay_bundle`, with the events that it read
unfoldable pub replay_bundle : Bundle → Result (Replay × Attestation × List Fields)
replay_bundle bundle = do
  attestation ← bundle.attestation
  events ← bundle.ledger
  replayed ← replay_events bundle.contract events (some attestation.approved_at)
  ok (replayed, attestation, events)

unfoldable pub require_clean_snapshot : File → Replay → Result (Unit {0})
require_clean_snapshot file replayed = do
  snapshot ← load_state file
  require
      (nat_eq replayed.last_event_seq 0 && not (given snapshot)
        || is_empty (state_differences snapshot replayed.state))
      run_state_drift

unfoldable pub check_preflight : Bundle → Result Attestation
check_preflight bundle = do
  (replayed, attestation, events) ← replay_bundle bundle
  bundle.dependencies_hold
  require_clean_snapshot bundle.snapshot replayed
  require (not replayed.reapproval_required) run_state_reapproval_required
  require (not (is_blocked replayed.lifecycle)) run_state_blocked
  require (not (is_terminal replayed.lifecycle)) run_state_not_executable
  ok attestation

unfoldable pub check_transition : Bundle → Result Attestation
check_transition bundle = do
  attestation ← check_preflight bundle
  (replayed, again, events) ← replay_bundle bundle
  require (not (given replayed.current_stage_id)) run_state_stage_active
  require (not (is_approved replayed.lifecycle)) run_state_not_started
  ok attestation

-- the snapshot, and whether it could not be loaded; only a `StateError` is caught
abbrev pub caught : Result (Option RunState) → Result (Option RunState × Bool)
caught (ok snapshot) = ok (snapshot, false)
caught (err (state_error code)) = ok (none, true)
caught (err e) = err e

abbrev pub is_ahead : Option RunState → RunState → Bool
is_ahead none state = false
is_ahead (some snapshot) state = ltb state.last_event_seq snapshot.last_event_seq

-- what the loaded snapshot calls for: the file that is left, and whether it was written
abbrev pub repair : Result (Option RunState) → RunState → File → Result (File × Bool)
repair result state file = do
  (snapshot, failed) ← caught result
  let differs = not (is_empty (state_differences snapshot state)) || failed
  require (not (is_ahead snapshot state)) run_state_ahead_of_ledger
  ok (if differs then holding (state_json state) else file, differs)

unfoldable pub reconcile_snapshot : Bundle → Result (File × Bool)
reconcile_snapshot bundle = do
  (replayed, attestation, events) ← replay_bundle bundle
  repair (load_state bundle.snapshot) replayed.state bundle.snapshot

abbrev pub covered_stages : Replay → List String
covered_stages replayed = keys replayed.stage_reviews ++ replayed.carried_stage_ids

abbrev pub expected_stages : Contract → List String
expected_stages contract = map (λ item. item.id) contract.stages

-- the commit evidence against the authorization
unfoldable pub check_commits : Contract → Bool → List Fields → Result (Unit {0})
check_commits contract authorized events = do
  let (stages, final) = commit_evidence_gaps contract events
  require (not (any is_commit events) || authorized) attestation_commit_denied
  require (not authorized || (is_empty stages && not final)) run_state_commit_evidence_missing

-- the checks on the replayed state itself
unfoldable pub check_finished : Contract → Replay → Result ReviewRecord
check_finished contract replayed = do
  require (is_completed replayed.lifecycle) run_state_final_incomplete
  require (not (given replayed.current_stage_id) && is_empty replayed.remaining_stage_ids)
      run_state_final_incomplete
  require
      (subset (covered_stages replayed) (expected_stages contract)
        && subset (expected_stages contract) (covered_stages replayed))
      run_state_review_incomplete
  require_some replayed.final_review run_state_final_review_incomplete

unfoldable pub check_final : Bundle → Result Attestation
check_final bundle = do
  (replayed, attestation, events) ← replay_bundle bundle
  bundle.dependencies_hold
  require_clean_snapshot bundle.snapshot replayed
  review ← check_finished bundle.contract replayed
  bundle.review_gate review
      (any (λ event. is_commit event && is_none (get "stage_id" event)) events)
  check_commits bundle.contract attestation.commit_authorized events
  targets ← bundle.pointer_targets_bundle
  require (not targets) task_pointer_not_closed
  ok attestation
