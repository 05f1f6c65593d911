-- ===== src/Executor/Ledger/Lifecycles.antt =====
-- The lifecycle along a replay: how a task ends, and how a stop for re-approval lasts.
use dev_skills.Base.{
  ℕ, true, false, not, ◌||◌, Option, none, some, String, List, ◌≡◌, ◌≢◌, arith, Dict, Fields, subst,
  is_empty,
}
use dev_skills.Executor.Errors.{ok, require-eq-ok, run_state_terminal}
use dev_skills.Executor.Event.{
  Event, EventType, stage_started, attempt_failed, validation_recorded, review_recorded,
  stage_completed, commit_recorded, given,
}
use dev_skills.Executor.Contract.{Stage, Contract}
use dev_skills.Executor.State.{Replay, update_next_action}
use dev_skills.Executor.Reducer.Guards.{is_terminal, is_completed, is_blocked}
use dev_skills.Executor.Reducer.Stages.{on_execution_started, on_stage_started, on_attempt_failed}
use dev_skills.Executor.Reducer.Records.{
  on_validation_recorded, on_review_recorded, on_stage_review, on_final_review,
}
use dev_skills.Executor.Reducer.Completion.{on_stage_completed, on_completed, on_aborted}
use dev_skills.Executor.Reducer.Stops.{
  on_blocked, on_research_drift, on_amendment_requested, on_resumed,
}
use dev_skills.Executor.Reducer.Amendment.{on_amendment_approved}
use dev_skills.Executor.Reducer.Commits.{on_commit_recorded, record_commit}
use dev_skills.Executor.Ledger.Induction.{replay_event-eq-ok}
use dev_skills.Executor.Ledger.{dispatch, apply_event, stamp, replay_event}

-- A completed task has no stage left, none active, and a final review.
pub record Ended (r : Replay) : Type 0 where
  pub at_end :
      is_completed r.lifecycle ≡ true
      → (is_empty r.remaining_stage_ids ≡ true)
        × (r.current_stage_id ≡ none)
        × (given r.final_review ≡ true)

-- While a new approval is required the task is stopped.
pub record Halted (r : Replay) : Type 0 where
  pub stopped :
      r.reapproval_required ≡ true → (is_blocked r.lifecycle || is_terminal r.lifecycle) ≡ true

-- the two fields that these are about
record SameLife (r r' : Replay) : Type 0 where
  life : r'.lifecycle ≡ r.lifecycle
  approval : r'.reapproval_required ≡ r.reapproval_required

on_review_recorded-SameLife :
    (r r' : Replay) (e : Event) → on_review_recorded r e ≡ ok r' → SameLife r r'
unfolding on_review_recorded on_stage_review on_final_review
on_review_recorded-SameLife r r' e h = ground arith

on_validation_recorded-SameLife :
    (definitions : Dict Stage) (r r' : Replay) (e : Event)
    → on_validation_recorded definitions r e ≡ ok r'
    → SameLife r r'
unfolding on_validation_recorded
on_validation_recorded-SameLife definitions r r' e h = ground arith

on_stage_started-SameLife :
    (definitions : Dict Stage) (r r' : Replay) (e : Event)
    → on_stage_started definitions r e ≡ ok r'
    → SameLife r r'
unfolding on_stage_started
on_stage_started-SameLife definitions r r' e h = ground arith

on_attempt_failed-SameLife :
    (r r' : Replay) (e : Event) → on_attempt_failed r e ≡ ok r' → SameLife r r'
unfolding on_attempt_failed
on_attempt_failed-SameLife r r' e h = ground arith

on_stage_completed-SameLife :
    (definitions : Dict Stage) (required : List String) (r r' : Replay) (e : Event)
    → on_stage_completed definitions required r e ≡ ok r'
    → SameLife r r'
unfolding on_stage_completed
on_stage_completed-SameLife definitions required r r' e h = ground arith

record_commit-SameLife :
    (definitions : Dict Stage) (r r' : Replay) (s : Option String)
    → record_commit definitions r s ≡ ok r'
    → SameLife r r'
unfolding record_commit
record_commit-SameLife definitions r r' none h = ground arith
record_commit-SameLife definitions r r' (some s) h = ground arith

on_commit_recorded-SameLife :
    (definitions : Dict Stage) (r r' : Replay) (e : Event)
    → on_commit_recorded definitions r e ≡ ok r'
    → SameLife r r'
unfolding on_commit_recorded
on_commit_recorded-SameLife definitions r r' e h =
    record_commit-SameLife definitions r r' e.stage_id (ground arith)

module _ (definitions : Dict Stage) (required : List String) (r r' : Replay) (e : Event) where
  same_life : is_terminal r.lifecycle ≡ false → SameLife r r' → Halted r → Ended r' × Halted r'
  same_life live same halted = (ground arith, ground arith)

  dispatch_life :
      (t : EventType)
      → is_terminal r.lifecycle ≡ false
      → dispatch definitions required t r e ≡ ok r'
      → Halted r
      → Ended r' × Halted r'
  unfolding dispatch on_execution_started on_blocked on_resumed on_research_drift
      on_amendment_requested on_amendment_approved on_completed on_aborted
  dispatch_life stage_started live h w =
      same_life live (on_stage_started-SameLife definitions r r' e h) w
  dispatch_life attempt_failed live h w = same_life live (on_attempt_failed-SameLife r r' e h) w
  dispatch_life validation_recorded live h w =
      same_life live (on_validation_recorded-SameLife definitions r r' e h) w
  dispatch_life review_recorded live h w = same_life live (on_review_recorded-SameLife r r' e h) w
  dispatch_life stage_completed live h w =
      same_life live (on_stage_completed-SameLife definitions required r r' e h) w
  dispatch_life commit_recorded live h w =
      same_life live (on_commit_recorded-SameLife definitions r r' e h) w
  dispatch_life _ live h w = (ground arith, ground arith)

stamp-life :
    (definitions : Dict Stage) (s : Replay) (seq : ℕ) (e : Event)
    → Ended s × Halted s
    → Ended (stamp definitions s seq e) × Halted (stamp definitions s seq e)
unfolding stamp update_next_action
stamp-life definitions s seq e (a, b) = (ground arith, ground arith)

pub replay_event-life :
    (definitions : Dict Stage) (required : List String) (contract : Contract) (seq : ℕ) (r : Replay)
    (raw : Fields) (r' : Replay)
    → replay_event definitions required contract seq r raw ≡ ok r'
    → Ended r × Halted r
    → Ended r' × Halted r'
unfolding apply_event
replay_event-life definitions required contract seq r raw r' h (_, halted) =
    let (e, s, checked, applied, stamped) =
      replay_event-eq-ok definitions required contract seq r raw r' h in
    let (live, done) = require-eq-ok (not (is_terminal r.lifecycle)) run_state_terminal _ applied in
    subst (λ t. Ended t × Halted t) stamped
      (stamp-life definitions s seq e
        (dispatch_life definitions required r s e e.type (ground arith) done halted))

-- No event is accepted after the end.
pub replay_event_terminal :
    (definitions : Dict Stage) (required : List String) (contract : Contract) (seq : ℕ) (r : Replay)
    (raw : Fields) (r' : Replay)
    → is_terminal r.lifecycle ≡ true
    → replay_event definitions required contract seq r raw ≢ ok r'
unfolding apply_event
replay_event_terminal definitions required contract seq r raw r' t h =
    let (e, s, checked, applied, stamped) =
      replay_event-eq-ok definitions required contract seq r raw r' h in
    let (live, done) = require-eq-ok (not (is_terminal r.lifecycle)) run_state_terminal _ applied in
    ground arith
