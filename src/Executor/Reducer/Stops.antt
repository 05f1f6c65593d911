-- ===== src/Executor/Reducer/Stops.antt =====
-- skills/complex-coding-executor/scripts/harness_state.py, `apply_event`: blocking, asking for an amendment, and resuming.
use dev_skills.Base.{true, not, ◌||◌, none, some, String}
use dev_skills.Executor.Errors.{
  Result, ok, ◌>>=◌, ◌>>◌, require, run_state_illegal_transition, run_state_reapproval_required,
}
use dev_skills.Executor.Event.{Event}
use dev_skills.Executor.State.{in_progress, blocked, Replay}
use dev_skills.Executor.Reducer.Guards.{
  is_terminal, is_approved, is_in_progress, is_blocked, payload_text,
}

unfoldable pub on_blocked : Replay → Event → Result Replay
on_blocked r event = do
  require (is_approved r.lifecycle || is_in_progress r.lifecycle) run_state_illegal_transition
  reason ← payload_text "reason" event.payload
  ok (record r { state = record r.state { lifecycle = blocked; stop_condition = some reason } })

-- `research_drift` and `amendment_requested`
abbrev pub stop_for_approval : Replay → String → Replay
stop_for_approval r reason = record r {
  state = record r.state {
    lifecycle = blocked;
    reapproval_required = true;
    stop_condition = some reason;
  };
}

unfoldable pub on_research_drift : Replay → Event → Result Replay
on_research_drift r event = do
  require (not (is_terminal r.lifecycle)) run_state_illegal_transition
  reason ← payload_text "reason" event.payload
  source ← payload_text "source" event.payload
  impact ← payload_text "impact" event.payload
  ok (stop_for_approval r reason)

unfoldable pub on_amendment_requested : Replay → Event → Result Replay
on_amendment_requested r event = do
  require (not (is_terminal r.lifecycle)) run_state_illegal_transition
  reason ← payload_text "reason" event.payload
  ok (stop_for_approval r reason)

unfoldable pub on_resumed : Replay → Event → Result Replay
on_resumed r event = do
  require (is_blocked r.lifecycle) run_state_illegal_transition
  require (not r.reapproval_required) run_state_reapproval_required
  resolution ← payload_text "resolution" event.payload
  ok (record r { state = record r.state { lifecycle = in_progress; stop_condition = none } })
