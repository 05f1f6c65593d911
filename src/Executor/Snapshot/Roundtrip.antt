-- ===== src/Executor/Snapshot/Roundtrip.antt =====
-- harness_state_io.py: a snapshot that was written loads as the state it was written from.
use dev_skills.Base.{
  true, false, Option, none, some, String, List, [], ◌∷◌, ◌==◌, ◌≡◌, refl, any, mem, distinct,
  subset, texts, str, arr,
}
use dev_skills.Executor.Errors.{ok}
use dev_skills.Executor.State.{
  Lifecycle, approved, in_progress, blocked, completed, aborted, RunState,
}
use dev_skills.Executor.Snapshot.{
  text_items, state_json, load_stages, load_lifecycle, load_fields, load_state, optional_text,
  text_or_null, holding, lifecycle_name,
}

pub texts-text_items : (l : List String) → texts (text_items l) ≡ some l
unfolding texts text_items
texts-text_items [] = refl
texts-text_items (s ∷ l) = rw (texts-text_items l) refl

load_lifecycle-lifecycle_name :
    (l : Lifecycle) → load_lifecycle (some (str (lifecycle_name l))) ≡ ok l
unfolding load_lifecycle
load_lifecycle-lifecycle_name approved = refl
load_lifecycle-lifecycle_name in_progress = refl
load_lifecycle-lifecycle_name blocked = refl
load_lifecycle-lifecycle_name completed = refl
load_lifecycle-lifecycle_name aborted = refl

optional_text-text_or_null : (o : Option String) → optional_text (some (text_or_null o)) ≡ some o
optional_text-text_or_null none = refl
optional_text-text_or_null (some s) = refl

load_stages-text_items :
    (l : List String) → distinct l ≡ true → load_stages (some (arr (text_items l))) ≡ ok l
unfolding load_stages
load_stages-text_items l once = rw (texts-text_items l, once) refl

-- A state with a task id, whose completed and remaining stages are each listed once and have none
-- in common, loads back from its snapshot as it was.
pub load_state-state_json :
    (s : RunState)
    → (s.task_id == "") ≡ false
    → distinct s.completed_stage_ids ≡ true
    → distinct s.remaining_stage_ids ≡ true
    → any (λ x. mem x s.remaining_stage_ids) s.completed_stage_ids ≡ false
    → load_state (holding (state_json s)) ≡ ok (some s)
unfolding load_state state_json load_fields subset mem
load_state-state_json s named once once' apart =
    rw
      (
        load_lifecycle-lifecycle_name s.lifecycle,
        named,
        optional_text-text_or_null s.current_stage_id,
        optional_text-text_or_null s.stop_condition,
        optional_text-text_or_null s.next_action,
        optional_text-text_or_null s.updated_at,
        load_stages-text_items s.completed_stage_ids once,
        load_stages-text_items s.remaining_stage_ids once',
        apart,
      )
      refl
