-- ===== src/Executor/Ledger.antt =====
-- skills/complex-coding-executor/scripts/harness_state.py: `apply_event` and `replay_events`.
-- The proofs are in the modules below.
pub mod Induction
pub mod Progress
pub mod Advance
pub mod Reached
pub mod Evidence
pub mod Backing
pub mod Closing
pub mod Standing
pub mod Lifecycles
pub mod Outcome
use dev_skills.Base.{
  ℕ, suc, ◌+◌, not, Option, none, some, String, List, [], ◌∷◌, Dict, keys, Fields, ◌≡◌, arith,
}
use dev_skills.Executor.Errors.{Result, ok, ◌>>=◌, ◌>>◌, require, run_state_terminal}
use dev_skills.Executor.Event.{
  Event, EventType, execution_started, stage_started, attempt_failed, validation_recorded,
  review_recorded, stage_completed, blocked, resumed, research_drift, amendment_requested,
  amendment_approved, commit_recorded, completed, aborted, note, heartbeat, validate_event,
}
use dev_skills.Executor.Contract.{
  Stage, Contract, stage_definitions, stage_order, required_validation_ids,
}
use dev_skills.Executor.State.{Replay, initial_state, update_next_action}
use dev_skills.Executor.Reducer.Guards.{is_terminal}
use dev_skills.Executor.Reducer.Stages.{on_execution_started, on_stage_started, on_attempt_failed}
use dev_skills.Executor.Reducer.Records.{on_validation_recorded, on_review_recorded}
use dev_skills.Executor.Reducer.Completion.{on_stage_completed, on_completed, on_aborted}
use dev_skills.Executor.Reducer.Stops.{
  on_blocked, on_research_drift, on_amendment_requested, on_resumed,
}
use dev_skills.Executor.Reducer.Amendment.{on_amendment_approved}
use dev_skills.Executor.Reducer.Commits.{on_commit_recorded}

-- what the loop sets after each event
unfoldable pub stamp : Dict Stage → Replay → ℕ → Event → Replay
stamp definitions r seq event = record r {
  state =
      update_next_action
        (record r.state {
          last_event_seq = seq;
          state_revision = seq;
          updated_at = some event.occurred_at;
        })
        definitions;
}

module _ (definitions : Dict Stage) (required : List String) where
  -- the branches on the event type; a note and a heartbeat change nothing
  unfoldable pub dispatch : EventType → Replay → Event → Result Replay
  dispatch execution_started r event = on_execution_started r
  dispatch stage_started r event = on_stage_started definitions r event
  dispatch attempt_failed r event = on_attempt_failed r event
  dispatch validation_recorded r event = on_validation_recorded definitions r event
  dispatch review_recorded r event = on_review_recorded r event
  dispatch stage_completed r event = on_stage_completed definitions required r event
  dispatch blocked r event = on_blocked r event
  dispatch resumed r event = on_resumed r event
  dispatch research_drift r event = on_research_drift r event
  dispatch amendment_requested r event = on_amendment_requested r event
  dispatch amendment_approved r event = on_amendment_approved definitions r event
  dispatch commit_recorded r event = on_commit_recorded definitions r event
  dispatch completed r event = on_completed r
  dispatch aborted r event = on_aborted r event
  dispatch note r event = ok r
  dispatch heartbeat r event = ok r

  unfoldable pub apply_event : Replay → Event → Result Replay
  apply_event r event = do
    require (not (is_terminal r.lifecycle)) run_state_terminal
    dispatch event.type r event

  -- one round of the loop
  unfoldable pub replay_event : Contract → ℕ → Replay → Fields → Result Replay
  replay_event contract seq r raw = do
    event ← validate_event raw seq contract.task_id contract.plan_revision (keys definitions)
    r' ← apply_event r event
    ok (stamp definitions r' seq event)

  unfoldable pub replay_from : Contract → ℕ → Replay → List Fields → Result Replay
  replay_from contract seq r [] = ok r
  replay_from contract seq r (raw ∷ events) = do
    r' ← replay_event contract seq r raw
    replay_from contract (suc seq) r' events

unfoldable pub initial_replay : Contract → List String → Option String → Replay
initial_replay contract ordered updated_at = record {
  state = initial_state contract ordered updated_at;
  passed_validations = [];
  stage_reviews = [];
  final_review = none;
  carried_stage_ids = [];
  attempts = [];
}

unfoldable pub replay_events : Contract → List Fields → Option String → Result Replay
replay_events contract events initial_timestamp = do
  definitions ← stage_definitions contract
  ordered ← stage_order definitions
  replay_from definitions (required_validation_ids contract) contract 1
      (initial_replay contract ordered initial_timestamp) events
