-- ===== src/Executor/Tests.antt =====
-- A ledger of two stages that runs to its end, and one that stops for a new approval.
pub mod Witnesses
pub mod Bundles
pub mod Building
use dev_skills.Executor.Errors.{Result, ok, err}
use dev_skills.Executor.Reducer.Guards.{is_completed, is_terminal}
use dev_skills.Base.{
  sorted, ℕ, Bool, true, false, none, String, List, [], ◌∷◌, Json, Fields, null, bool, int, str,
  arr, obj, nil, pos, end, field, ◌≡◌, refl, Dict, insert, subset, lookup, mem, without, delete,
  distinct, remove, within, has_text, is_absolute, is_sha256, path_parts, texts,
}
use dev_skills.Executor.Contract.{
  Stage, Contract, stage_definitions, stage_order, order_rounds, ready_stages, dependencies,
  required_validation_ids,
}
use dev_skills.Executor.Ledger.{
  replay_events, replay_from, replay_event, apply_event, dispatch, initial_replay, stamp,
}
use dev_skills.Executor.Event.{
  validate_event, check_identity, event_name, check_attempt, check_refs, check_stage, check_subject,
  event_type_of,
}
use dev_skills.Executor.Time.{parse_timestamp, is_rfc3339}
use dev_skills.Executor.Reducer.Completion.{on_completed, on_stage_completed}
use dev_skills.Executor.Reducer.Records.{
  on_final_review, on_review_recorded, on_stage_review, on_validation_recorded,
}
use dev_skills.Executor.Reducer.Stages.{on_execution_started, on_stage_started}
use dev_skills.Executor.Reducer.Stops.{on_research_drift}
use dev_skills.Executor.Review.{
  validate_review_record, validate_review_scope, validate_count_object, check_mode, check_verdict,
  check_summaries, check_counts, check_receipt, is_clear,
}
use dev_skills.Executor.State.{
  Replay, first_ready, initial_state, next_ready_stage, update_next_action,
}
use dev_skills.Executor.Validation.{validate_validation_record}

abbrev first_stage : Stage
first_stage = record {
  id = "S1";
  depends_on = [];
  validation_ids = "V1" ∷ [];
  commit_expectation = "none";
}

abbrev second_stage : Stage
second_stage = record {
  id = "S2";
  depends_on = "S1" ∷ [];
  validation_ids = [];
  commit_expectation = "none";
}

-- the second stage is listed first
abbrev pub plan : Contract
plan = record {
  task_id = "T";
  plan_revision = 1;
  stages = second_stage ∷ first_stage ∷ [];
  validations = record { id = "V1"; required = true } ∷ [];
}

abbrev pub plan_definitions : Dict Stage
plan_definitions = ("S2", second_stage) ∷ ("S1", first_stage) ∷ []

abbrev pub plan_order : List String
plan_order = "S1" ∷ "S2" ∷ []

pub plan-defined : stage_definitions plan ≡ ok plan_definitions
unfolding stage_definitions insert
plan-defined = refl

pub plan-ordered : stage_order plan_definitions ≡ ok plan_order
unfolding stage_order order_rounds ready_stages sorted subset dependencies lookup mem without
plan-ordered = refl

abbrev pub number : ℕ → Json
number n = int (pos n)

abbrev pub fields : List (String × Json) → Fields
fields [] = end
fields ((k, v) ∷ l) = field k v (fields l)

abbrev pub digest : String
digest = "0123456789abcdef0123456789abcdef0123456789abcdef0123456789abcdef"

abbrev pub entry : ℕ → String → Json → Json → List (String × Json) → Fields
entry seq type stage attempt payload = fields (
    ("seq", number seq)
    ∷ ("event_id", str (event_name seq))
    ∷ ("occurred_at", str "2024-02-29T10:00:00Z")
    ∷ ("task_id", str "T")
    ∷ ("plan_revision", number 1)
    ∷ ("stage_id", stage)
    ∷ ("type", str type)
    ∷ ("attempt", attempt)
    ∷ ("payload", obj (fields payload))
    ∷ ("evidence_refs", arr nil)
    ∷ [])

abbrev pub validation : String → String → List (String × Json)
validation result source =
    ("validation_id", str "V1")
    ∷ ("result", str result)
    ∷ ("command", str "make test")
    ∷ ("claim_source", str source)
    ∷ ("stage_attempt", number 1)
    ∷ ("target_digest", str digest)
    ∷ ("exit_code", number 0)
    ∷ ("summary", str "all pass")
    ∷ ("claim_boundary", str "unit tests")
    ∷ []

abbrev pub no_counts : List (String × Json)
no_counts =
    ("blocking", number 0) ∷ ("major", number 0) ∷ ("minor", number 1) ∷ ("total", number 1) ∷ []

abbrev pub review : List (String × Json) → List (String × Json)
review scope =
    ("result", str "passed")
    ∷ ("review_id", str "R1")
    ∷ ("profile", str "code-review")
    ∷ ("scope", obj (fields scope))
    ∷ ("target_digest", str digest)
    ∷ ("context_digest", str digest)
    ∷ ("verdict", str "passed")
    ∷ ("report_ref", str "artifacts/reviews/r1.json")
    ∷ ("open_counts", obj (fields (("advisory", number 0) ∷ no_counts)))
    ∷ ("gap_counts", obj (fields no_counts))
    ∷ (
      "coverage_summary",
      obj (
          fields (
            ("target_paths", number 1)
            ∷ ("requirements", number 1)
            ∷ ("risks", number 0)
            ∷ ("context_expansions", number 0)
            ∷ [])),
    )
    ∷ (
      "lineage_summary",
      obj (fields (("predecessor_review_id", null) ∷ ("accounted_finding_count", number 0) ∷ [])),
    )
    ∷ ("strength_count", number 0)
    ∷ ("summary", str "fine")
    ∷ ("reviewer_mode", str "same-context")
    ∷ ("independence_claim", bool false)
    ∷ ("dispatch_id", str "D1")
    ∷ []

abbrev pub stage_scope : String → List (String × Json)
stage_scope stage =
    ("kind", str "stage-delta") ∷ ("stage_id", str stage) ∷ ("attempt", number 1) ∷ []

abbrev pub finished : List Fields
finished =
    entry 1 "execution_started" null null []
    ∷ entry 2 "stage_started" (str "S1") (number 1) []
    ∷ entry 3 "validation_recorded" (str "S1") (number 1) (validation "passed" "observed")
    ∷ entry 4 "review_recorded" (str "S1") (number 1) (review (stage_scope "S1"))
    ∷ entry 5 "stage_completed" (str "S1") null []
    ∷ entry 6 "stage_started" (str "S2") (number 1) []
    ∷ entry 7 "review_recorded" (str "S2") (number 1) (review (stage_scope "S2"))
    ∷ entry 8 "stage_completed" (str "S2") null []
    ∷ entry 9 "review_recorded" null null (review (("kind", str "final-integration") ∷ []))
    ∷ entry 10 "completed" null null []
    ∷ []

abbrev pub drifted : List Fields
drifted =
    entry 1 "execution_started" null null []
    ∷ entry 2 "research_drift" null null
        (("reason", str "a new release") ∷ ("source", str "docs") ∷ ("impact", str "the API") ∷ [])
    ∷ []

-- the replay, where there is one
abbrev value : Result Replay → Replay
value (ok r) = r
value (err e) = initial_replay plan [] none

abbrev is_ok : Result Replay → Bool
is_ok (ok r) = true
is_ok (err e) = false

value_lem : (m : Result Replay) → is_ok m ≡ true → m ≡ ok (value m)
value_lem (ok r) h = refl
value_lem (err e) h = cc

abbrev pub ended : Replay
ended = value (replay_events plan finished none)

abbrev pub stopped : Replay
stopped = value (replay_events plan drifted none)

finished_run :
    (is_ok (replay_events plan finished none) ≡ true)
    × (is_completed ended.lifecycle ≡ true)
    × (mem "S1" ended.completed_stage_ids ≡ true)
    × (is_terminal ended.lifecycle ≡ true)
unfolding insert subset lookup mem without delete distinct remove within has_text is_absolute
    is_sha256 path_parts texts stage_definitions stage_order order_rounds ready_stages sorted
    dependencies required_validation_ids replay_events replay_from replay_event apply_event dispatch
    initial_replay stamp validate_event check_identity event_name check_attempt check_refs
    check_stage check_subject event_type_of parse_timestamp is_rfc3339 on_completed
    on_stage_completed on_final_review on_review_recorded on_stage_review on_validation_recorded
    on_execution_started on_stage_started on_research_drift validate_review_record
    validate_review_scope validate_count_object check_mode check_verdict check_summaries
    check_counts check_receipt is_clear first_ready initial_state next_ready_stage
    update_next_action validate_validation_record
finished_run = (refl, refl, refl, refl)

drifted_run :
    (is_ok (replay_events plan drifted none) ≡ true) × (stopped.reapproval_required ≡ true)
unfolding insert subset lookup mem without delete distinct remove within has_text is_absolute
    is_sha256 path_parts texts stage_definitions stage_order order_rounds ready_stages sorted
    dependencies required_validation_ids replay_events replay_from replay_event apply_event dispatch
    initial_replay stamp validate_event check_identity event_name check_attempt check_refs
    check_stage check_subject event_type_of parse_timestamp is_rfc3339 on_completed
    on_stage_completed on_final_review on_review_recorded on_stage_review on_validation_recorded
    on_execution_started on_stage_started on_research_drift validate_review_record
    validate_review_scope validate_count_object check_mode check_verdict check_summaries
    check_counts check_receipt is_clear first_ready initial_state next_ready_stage
    update_next_action validate_validation_record
drifted_run = (refl, refl)

pub ended_replayed : replay_events plan finished none ≡ ok ended
ended_replayed = value_lem (replay_events plan finished none) finished_run.0

pub stopped_replayed : replay_events plan drifted none ≡ ok stopped
stopped_replayed = value_lem (replay_events plan drifted none) drifted_run.0

pub ended_is_completed : is_completed ended.lifecycle ≡ true
ended_is_completed = finished_run.1

pub first_is_completed : mem "S1" ended.completed_stage_ids ≡ true
first_is_completed = finished_run.2

pub ended_is_terminal : is_terminal ended.lifecycle ≡ true
ended_is_terminal = finished_run.3

pub stopped_needs_approval : stopped.reapproval_required ≡ true
stopped_needs_approval = drifted_run.1
