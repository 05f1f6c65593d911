-- ===== src/Executor/State.antt =====
-- skills/complex-coding-executor/scripts/harness_state.py and harness_state_schema.py: the
-- run state, the result of a replay, and the derived `next_action`.
use Prim.Native.String.{◌++◌ as ◌<>◌}
use dev_skills.Base.{
  sorted, ℕ, Bool, false, ◌&&◌, not, Option, none, some, String, List, [], ◌∷◌, ◌==◌, if◌then◌else◌,
  any, subset, without, Dict, Fields, get, as_str, is_none, is_str,
}
use dev_skills.Executor.Validation.{ValidationRecord}
use dev_skills.Executor.Review.{ReviewRecord}
use dev_skills.Executor.Contract.{Stage, Contract, dependencies}

pub data Lifecycle : Type 0 where
  approved in_progress blocked completed aborted : Lifecycle

-- STATE_FIELDS
pub record RunState : Type 0 where
  pub task_id : String
  pub plan_revision : ℕ
  pub lifecycle : Lifecycle
  pub current_stage_id : Option String
  pub completed_stage_ids : List String
  pub remaining_stage_ids : List String
  pub stop_condition : Option String
  pub next_action : Option String
  pub reapproval_required : Bool
  pub last_event_seq : ℕ
  pub state_revision : ℕ
  pub updated_at : Option String

-- A value of `passed_validations`: a record, or the `{"result": "carried"}` of an amendment.
pub data Evidence : Type 0 where
  recorded : ValidationRecord → Evidence
  carried : Evidence

-- `ReplayResult`; the reducer mutates these six values.
pub record Replay : Type 0 where
  pub state : RunState
  pub open state use *
  pub passed_validations : Dict (Dict Evidence)
  pub stage_reviews : Dict ReviewRecord
  pub final_review : Option ReviewRecord
  pub carried_stage_ids : List String
  pub attempts : Dict ℕ

-- `f"start {ordered_stages[0]}"`; the order is not empty
abbrev start_first : List String → Option String
start_first [] = none
start_first (s ∷ l) = some ("start " <> s)

unfoldable pub initial_state : Contract → List String → Option String → RunState
initial_state contract ordered_stages updated_at = record {
  task_id = contract.task_id;
  plan_revision = contract.plan_revision;
  lifecycle = approved;
  current_stage_id = none;
  completed_stage_ids = [];
  remaining_stage_ids = ordered_stages;
  stop_condition = none;
  next_action = start_first ordered_stages;
  reapproval_required = false;
  last_event_seq = 0;
  state_revision = 0;
  updated_at = updated_at;
}

-- the first remaining stage whose dependencies are completed
unfoldable pub first_ready : Dict Stage → List String → List String → Option String
first_ready definitions completed_ids [] = none
first_ready definitions completed_ids (s ∷ l) =
    let rest = first_ready definitions completed_ids l in
    if subset (dependencies definitions s) completed_ids then some s else rest

unfoldable pub next_ready_stage : RunState → Dict Stage → Option String
unfolding first_ready
next_ready_stage state definitions =
    first_ready definitions state.completed_stage_ids state.remaining_stage_ids

abbrev action : Lifecycle → Option String → Option String → Option String
action blocked current ready = some "await resolution or amendment approval"
action completed current ready = none
action aborted current ready = none
action approved (some s) ready = some ("continue " <> s)
action in_progress (some s) ready = some ("continue " <> s)
action approved none (some s) = some ("start " <> s)
action in_progress none (some s) = some ("start " <> s)
action approved none none = some "finalize task"
action in_progress none none = some "finalize task"

unfoldable pub update_next_action : RunState → Dict Stage → RunState
update_next_action state definitions = record state {
  next_action = action state.lifecycle state.current_stage_id (next_ready_stage state definitions);
}

-- The commit evidence that is still missing, from the events of the ledger as they are read.
stage_expected : List Stage → List String
stage_expected [] = []
stage_expected (item ∷ l) =
    let rest = stage_expected l in
    if item.commit_expectation == "stage" then item.id ∷ rest else rest

abbrev pub is_commit : Fields → Bool
is_commit event = is_str (get "type" event) "commit_recorded"

-- a stage commit of a ledger that was replayed names its stage by a text
committed_stage_ids : List Fields → List String
committed_stage_ids [] = []
committed_stage_ids (event ∷ l) =
    let rest = committed_stage_ids l in
    if is_commit event
    then (elim (as_str (get "stage_id" event)) [ none ↦ rest | some s ↦ s ∷ rest ])
    else rest

unfoldable pub commit_evidence_gaps : Contract → List Fields → List String × Bool
unfolding stage_expected committed_stage_ids
commit_evidence_gaps contract events =
    let final_expected = any (λ item. item.commit_expectation == "final") contract.stages in
    let final_recorded = any (λ event. is_commit event && is_none (get "stage_id" event)) events in
    (
      sorted (without (committed_stage_ids events) (stage_expected contract.stages)),
      final_expected && not final_recorded,
    )
