-- ===== src/Executor/Tests/Bundles.antt =====
-- Task bundles with the ledgers of the tests, and the gates on them.
use dev_skills.Base.{
  sorted, Bool, true, false, none, some, List, [], ◌∷◌, ◌==◌, Fields, any, is_empty, is_none, get,
  ◌&&◌, null, ◌≡◌, refl, insert, subset, lookup, mem, without, delete, distinct, remove, within,
  has_text, is_absolute, is_sha256, path_parts, texts,
}
use dev_skills.Executor.Errors.{Result, ok, err}
use dev_skills.Executor.Reducer.Guards.{is_completed}
use dev_skills.Executor.Contract.{
  stage_definitions, stage_order, order_rounds, ready_stages, dependencies, required_validation_ids,
}
use dev_skills.Executor.Ledger.{
  replay_events, replay_from, replay_event, apply_event, dispatch, initial_replay, stamp,
}
use dev_skills.Executor.Event.{
  validate_event, check_identity, event_name, check_attempt, check_refs, check_stage, check_subject,
  event_type_of,
}
use dev_skills.Executor.Time.{parse_timestamp, is_rfc3339}
use dev_skills.Executor.Reducer.Completion.{on_completed, on_stage_completed}
use dev_skills.Executor.Reducer.Records.{
  on_final_review, on_review_recorded, on_stage_review, on_validation_recorded,
}
use dev_skills.Executor.Reducer.Stages.{on_execution_started, on_stage_started}
use dev_skills.Executor.Reducer.Stops.{on_research_drift}
use dev_skills.Executor.Review.{
  validate_review_record, validate_review_scope, validate_count_object, check_mode, check_verdict,
  check_summaries, check_counts, check_receipt, is_clear,
}
use dev_skills.Executor.State.{
  Replay, first_ready, initial_state, next_ready_stage, update_next_action,
}
use dev_skills.Executor.Validation.{validate_validation_record}
use dev_skills.Executor.Reducer.Guards.{is_completed, is_in_progress}
use dev_skills.Executor.Review.{ReviewRecord}
use dev_skills.Executor.State.{RunState, in_progress, is_commit, commit_evidence_gaps}
use dev_skills.Executor.Snapshot.{
  File, absent, unreadable, holding, state_json, load_state, load_fields, load_lifecycle,
  load_stages, text_items, state_differences, same_texts,
}
use dev_skills.Executor.Snapshot.Differences.{state_differences-nil}
use dev_skills.Executor.Snapshot.Roundtrip.{load_state-state_json}
use dev_skills.Executor.Gate.{
  Attestation, Bundle, replay_bundle, require_clean_snapshot, check_preflight, check_transition,
  check_finished, check_commits, check_final, reconcile_snapshot, covered_stages, expected_stages,
}
use dev_skills.Executor.Gate.Accepts.{
  IsClean, CommitsHold, check_transition-accepts, check_final-accepts,
}
use dev_skills.Executor.Gate.Repairs.{reconcile_snapshot-loads}
use dev_skills.Executor.Tests.{
  plan, plan_definitions, plan_order, plan-defined, plan-ordered, entry, finished,
}

abbrev sample : RunState
sample = record {
  task_id = "T";
  plan_revision = 1;
  lifecycle = in_progress;
  current_stage_id = some "S2";
  completed_stage_ids = "S1" ∷ [];
  remaining_stage_ids = "S2" ∷ [];
  stop_condition = none;
  next_action = some "continue S2";
  reapproval_required = false;
  last_event_seq = 4;
  state_revision = 4;
  updated_at = none;
}

sample_once : (distinct ("S1" ∷ []) ≡ true) × (distinct ("S2" ∷ []) ≡ true)
unfolding distinct mem
sample_once = (refl, refl)

sample_apart : any (λ x. mem x ("S2" ∷ [])) ("S1" ∷ []) ≡ false
unfolding mem
sample_apart = refl

load_state-state_json_example : load_state (holding (state_json sample)) ≡ ok (some sample)
load_state-state_json_example =
    load_state-state_json sample refl sample_once.0 sample_once.1 sample_apart

sample_same : is_empty (state_differences (some sample) sample) ≡ true
unfolding state_differences same_texts
sample_same = refl

state_differences-nil_example : sample ≡ sample
state_differences-nil_example = state_differences-nil sample sample sample_same

abbrev approval : Attestation
approval = record { approved_at = "2024-02-29T09:00:00Z"; commit_authorized = false }

abbrev bundle_of : List Fields → File → Bundle
bundle_of events snapshot = record {
  contract = plan;
  attestation = ok approval;
  ledger = ok events;
  snapshot = snapshot;
  dependencies_hold = ok tt;
  review_gate = λ review recorded. ok tt;
  pointer_targets_bundle = ok false;
}

abbrev replay_value : Result (Replay × Attestation × List Fields) → Replay
replay_value (ok (r, a, l)) = r
replay_value (err e) = initial_replay plan [] none

abbrev holds {ℓ} : {A : Type ℓ} → Result A → Bool
holds (ok a) = true
holds (err e) = false

-- the replay of a bundle does not read its snapshot
abbrev replayed_of : List Fields → Replay
replayed_of events = replay_value (replay_bundle (bundle_of events absent))

abbrev settled_bundle : List Fields → Bundle
settled_bundle events = bundle_of events (holding (state_json (replayed_of events).state))

abbrev started : List Fields
started = entry 1 "execution_started" null null [] ∷ []

transition_passes : check_transition (settled_bundle started) ≡ ok approval
unfolding insert subset lookup mem without delete distinct remove within has_text is_absolute
    is_sha256 path_parts texts stage_definitions stage_order order_rounds ready_stages sorted
    dependencies required_validation_ids replay_events replay_from replay_event apply_event dispatch
    initial_replay stamp validate_event check_identity event_name check_attempt check_refs
    check_stage check_subject event_type_of parse_timestamp is_rfc3339 on_completed
    on_stage_completed on_final_review on_review_recorded on_stage_review on_validation_recorded
    on_execution_started on_stage_started on_research_drift validate_review_record
    validate_review_scope validate_count_object check_mode check_verdict check_summaries
    check_counts check_receipt is_clear first_ready initial_state next_ready_stage
    update_next_action validate_validation_record check_transition check_preflight replay_bundle
    require_clean_snapshot load_state load_fields load_lifecycle load_stages state_json text_items
    state_differences same_texts
transition_passes = refl

final_passes : check_final (settled_bundle finished) ≡ ok approval
unfolding insert subset lookup mem without delete distinct remove within has_text is_absolute
    is_sha256 path_parts texts stage_definitions stage_order order_rounds ready_stages sorted
    dependencies required_validation_ids replay_events replay_from replay_event apply_event dispatch
    initial_replay stamp validate_event check_identity event_name check_attempt check_refs
    check_stage check_subject event_type_of parse_timestamp is_rfc3339 on_completed
    on_stage_completed on_final_review on_review_recorded on_stage_review on_validation_recorded
    on_execution_started on_stage_started on_research_drift validate_review_record
    validate_review_scope validate_count_object check_mode check_verdict check_summaries
    check_counts check_receipt is_clear first_ready initial_state next_ready_stage
    update_next_action validate_validation_record check_final check_finished check_commits
    commit_evidence_gaps replay_bundle require_clean_snapshot load_state load_fields load_lifecycle
    load_stages state_json text_items state_differences same_texts
final_passes = refl

check_transition-accepts_example :
    (r : Replay) × (events : List Fields) × (replay_bundle (settled_bundle started)
      ≡ ok (r, approval, events))
    × IsClean (settled_bundle started).snapshot r
    × (r.reapproval_required ≡ false)
    × (r.current_stage_id ≡ none)
    × (is_in_progress r.lifecycle ≡ true)
check_transition-accepts_example =
    check_transition-accepts (settled_bundle started) approval transition_passes

check_final-accepts_example :
    (r : Replay) × (events : List Fields) × (review : ReviewRecord) × (replay_bundle
        (settled_bundle finished)
      ≡ ok (r, approval, events))
    × IsClean (settled_bundle finished).snapshot r
    × (is_completed r.lifecycle ≡ true)
    × (is_empty r.remaining_stage_ids ≡ true)
    × (subset (expected_stages plan) (covered_stages r) ≡ true)
    × (r.final_review ≡ some review)
    × ((settled_bundle finished).review_gate review
          (any (λ event. is_commit event && is_none (get "stage_id" event)) events)
        ≡ ok tt)
    × CommitsHold plan false events
    × ((settled_bundle finished).pointer_targets_bundle ≡ ok false)
check_final-accepts_example = check_final-accepts (settled_bundle finished) approval final_passes

abbrev broken : Bundle
broken = bundle_of started unreadable

broken_replayed : replay_bundle broken ≡ ok (replayed_of started, approval, started)
unfolding insert subset lookup mem without delete distinct remove within has_text is_absolute
    is_sha256 path_parts texts stage_definitions stage_order order_rounds ready_stages sorted
    dependencies required_validation_ids replay_events replay_from replay_event apply_event dispatch
    initial_replay stamp validate_event check_identity event_name check_attempt check_refs
    check_stage check_subject event_type_of parse_timestamp is_rfc3339 on_completed
    on_stage_completed on_final_review on_review_recorded on_stage_review on_validation_recorded
    on_execution_started on_stage_started on_research_drift validate_review_record
    validate_review_scope validate_count_object check_mode check_verdict check_summaries
    check_counts check_receipt is_clear first_ready initial_state next_ready_stage
    update_next_action validate_validation_record replay_bundle
broken_replayed = refl

broken_repaired :
    reconcile_snapshot broken ≡ ok (holding (state_json (replayed_of started).state), true)
unfolding insert subset lookup mem without delete distinct remove within has_text is_absolute
    is_sha256 path_parts texts stage_definitions stage_order order_rounds ready_stages sorted
    dependencies required_validation_ids replay_events replay_from replay_event apply_event dispatch
    initial_replay stamp validate_event check_identity event_name check_attempt check_refs
    check_stage check_subject event_type_of parse_timestamp is_rfc3339 on_completed
    on_stage_completed on_final_review on_review_recorded on_stage_review on_validation_recorded
    on_execution_started on_stage_started on_research_drift validate_review_record
    validate_review_scope validate_count_object check_mode check_verdict check_summaries
    check_counts check_receipt is_clear first_ready initial_state next_ready_stage
    update_next_action validate_validation_record replay_bundle reconcile_snapshot load_state
    state_differences
broken_repaired = refl

broken_named : ((replayed_of started).task_id == "") ≡ false
unfolding insert subset lookup mem without delete distinct remove within has_text is_absolute
    is_sha256 path_parts texts stage_definitions stage_order order_rounds ready_stages sorted
    dependencies required_validation_ids replay_events replay_from replay_event apply_event dispatch
    initial_replay stamp validate_event check_identity event_name check_attempt check_refs
    check_stage check_subject event_type_of parse_timestamp is_rfc3339 on_completed
    on_stage_completed on_final_review on_review_recorded on_stage_review on_validation_recorded
    on_execution_started on_stage_started on_research_drift validate_review_record
    validate_review_scope validate_count_object check_mode check_verdict check_summaries
    check_counts check_receipt is_clear first_ready initial_state next_ready_stage
    update_next_action validate_validation_record replay_bundle
broken_named = refl

reconcile_snapshot-loads_example :
    load_state (holding (state_json (replayed_of started).state))
    ≡ ok (some (replayed_of started).state)
reconcile_snapshot-loads_example =
    reconcile_snapshot-loads broken plan_definitions plan_order plan-defined plan-ordered approval
      started (replayed_of started) broken_replayed
      (holding (state_json (replayed_of started).state)) true broken_repaired broken_named
