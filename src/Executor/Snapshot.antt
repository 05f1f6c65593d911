-- ===== src/Executor/Snapshot.antt =====
-- skills/complex-coding-executor/scripts/harness_state_io.py: the snapshot of a run state, as it is
-- written, loaded and compared. A file is absent, no JSON text, or a JSON value.
pub mod Roundtrip
pub mod Differences
use dev_skills.Base.{
  ℕ, Bool, true, false, not, ◌&&◌, ◌||◌, Option, none, some, String, List, [], ◌∷◌, ◌++◌, ◌==◌,
  nat_eq, if◌then◌else◌, subset, any, mem, distinct, Json, Items, Fields, null, bool, int, str, arr,
  obj, nil, cons, end, field, pos, field_names, get, as_obj, as_nat, as_str, as_bool, as_arr,
  is_none, texts,
}
use dev_skills.Executor.Errors.{
  Result, ok, err, ◌>>=◌, ◌>>◌, require, require_some, hashed, run_state_invalid_json,
  run_state_invalid_type, run_state_unknown_field, run_state_missing_field, run_state_invalid_value,
  run_state_duplicate_stage, run_state_stage_set_conflict,
}
use dev_skills.Executor.State.{
  Lifecycle, approved, in_progress, blocked, completed, aborted, RunState,
}

abbrev pub state_fields : List String
state_fields =
    "task_id" ∷ "plan_revision" ∷ "lifecycle" ∷ "current_stage_id" ∷ "completed_stage_ids"
    ∷ "remaining_stage_ids" ∷ "stop_condition" ∷ "next_action" ∷ "reapproval_required"
    ∷ "last_event_seq" ∷ "state_revision" ∷ "updated_at" ∷ []

abbrev pub lifecycle_name : Lifecycle → String
lifecycle_name approved = "approved"
lifecycle_name in_progress = "in_progress"
lifecycle_name blocked = "blocked"
lifecycle_name completed = "completed"
lifecycle_name aborted = "aborted"

abbrev pub lifecycle_of : Option String → Option Lifecycle
lifecycle_of none = none
lifecycle_of (some s) =
    if s == "approved"
    then some approved
    else if s == "in_progress"
    then some in_progress
    else if s == "blocked"
    then some blocked
    else if s == "completed"
    then some completed
    else if s == "aborted"
    then some aborted
    else none

abbrev pub text_or_null : Option String → Json
text_or_null none = null
text_or_null (some s) = str s

unfoldable pub text_items : List String → Items
text_items [] = nil
text_items (s ∷ l) = cons (str s) (text_items l)

-- the object that `write_state_atomic` writes
unfoldable pub state_json : RunState → Json
state_json s = obj (
    field "task_id" (str s.task_id) (
      field "plan_revision" (int (pos s.plan_revision)) (
        field "lifecycle" (str (lifecycle_name s.lifecycle)) (
          field "current_stage_id" (text_or_null s.current_stage_id) (
            field "completed_stage_ids" (arr (text_items s.completed_stage_ids)) (
              field "remaining_stage_ids" (arr (text_items s.remaining_stage_ids)) (
                field "stop_condition" (text_or_null s.stop_condition) (
                  field "next_action" (text_or_null s.next_action) (
                    field "reapproval_required" (bool s.reapproval_required) (
                      field "last_event_seq" (int (pos s.last_event_seq)) (
                        field "state_revision" (int (pos s.state_revision))
                          (field "updated_at" (text_or_null s.updated_at) end))))))))))))

abbrev pub optional_text : Option Json → Option (Option String)
optional_text v =
    if is_none v then some none else (elim (as_str v) [ none ↦ none | some s ↦ some (some s) ])

abbrev filled : Option String → Option String
filled none = none
filled (some s) = if s == "" then none else some s

abbrev texts_in : Option Items → Option (List String)
texts_in none = none
texts_in (some xs) = texts xs

-- an array of texts, each once
unfoldable pub load_stages : Option Json → Result (List String)
load_stages v = do
  entries ← require_some (texts_in (as_arr v)) run_state_invalid_type
  require (distinct entries) run_state_duplicate_stage
  ok entries

unfoldable pub load_lifecycle : Option Json → Result Lifecycle
load_lifecycle v = do name ← hashed v; require_some (lifecycle_of name) run_state_invalid_value

-- the checks on the object
unfoldable pub load_fields : Fields → Result RunState
load_fields fs = do
  require (subset (field_names fs) state_fields) run_state_unknown_field
  require (subset state_fields (field_names fs)) run_state_missing_field
  lifecycle ← load_lifecycle (get "lifecycle" fs)
  task_id ← require_some (filled (as_str (get "task_id" fs))) run_state_invalid_type
  current ← require_some (optional_text (get "current_stage_id" fs)) run_state_invalid_type
  stop ← require_some (optional_text (get "stop_condition" fs)) run_state_invalid_type
  next ← require_some (optional_text (get "next_action" fs)) run_state_invalid_type
  updated ← require_some (optional_text (get "updated_at" fs)) run_state_invalid_type
  done ← load_stages (get "completed_stage_ids" fs)
  remaining ← load_stages (get "remaining_stage_ids" fs)
  require (not (any (λ s. mem s remaining) done)) run_state_stage_set_conflict
  plan ← require_some (as_nat (get "plan_revision" fs)) run_state_invalid_type
  seq ← require_some (as_nat (get "last_event_seq" fs)) run_state_invalid_type
  revision ← require_some (as_nat (get "state_revision" fs)) run_state_invalid_type
  reapproval ← require_some (as_bool (get "reapproval_required" fs)) run_state_invalid_type
  ok (record {
    task_id = task_id;
    plan_revision = plan;
    lifecycle = lifecycle;
    current_stage_id = current;
    completed_stage_ids = done;
    remaining_stage_ids = remaining;
    stop_condition = stop;
    next_action = next;
    reapproval_required = reapproval;
    last_event_seq = seq;
    state_revision = revision;
    updated_at = updated;
  })

pub data File : Type 0 where
  absent unreadable : File
  holding : Json → File

unfoldable pub load_state : File → Result (Option RunState)
load_state absent = ok none
load_state unreadable = require_some none run_state_invalid_json
load_state (holding v) = do
  fs ← require_some (as_obj (some v)) run_state_invalid_type
  state ← load_fields fs
  ok (some state)

abbrev pub same_text : Option String → Option String → Bool
same_text none none = true
same_text (some s) (some t) = s == t
same_text _ _ = false

unfoldable pub same_texts : List String → List String → Bool
same_texts [] [] = true
same_texts (s ∷ l) (t ∷ m) = s == t && same_texts l m
same_texts _ _ = false

abbrev pub same_bool : Bool → Bool → Bool
same_bool true b = b
same_bool false b = not b

abbrev pub differing : String → Bool → List String → List String
differing name true rest = rest
differing name false rest = name ∷ rest

-- the names of the fields that differ, in their order; `$` for an absent snapshot
unfoldable pub state_differences : Option RunState → RunState → List String
state_differences none t = "$" ∷ []
state_differences (some s) t =
    differing "completed_stage_ids" (same_texts s.completed_stage_ids t.completed_stage_ids) (
      differing "current_stage_id" (same_text s.current_stage_id t.current_stage_id) (
        differing "last_event_seq" (nat_eq s.last_event_seq t.last_event_seq) (
          differing "lifecycle" (lifecycle_name s.lifecycle == lifecycle_name t.lifecycle) (
            differing "next_action" (same_text s.next_action t.next_action) (
              differing "plan_revision" (nat_eq s.plan_revision t.plan_revision) (
                differing "reapproval_required"
                  (same_bool s.reapproval_required t.reapproval_required)
                  (differing "remaining_stage_ids"
                    (same_texts s.remaining_stage_ids t.remaining_stage_ids)
                    (differing "state_revision" (nat_eq s.state_revision t.state_revision) (
                      differing "stop_condition" (same_text s.stop_condition t.stop_condition) (
                        differing "task_id" (s.task_id == t.task_id) (
                          differing "updated_at" (same_text s.updated_at t.updated_at) [])))))))))))
