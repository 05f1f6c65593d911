-- ===== src/Executor/Reducer/Amendment.antt =====
-- skills/complex-coding-executor/scripts/harness_state.py, `apply_event`: the approved amendment that opens a new revision.
use dev_skills.Base.{
  ℕ, zero, suc, Bool, false, not, ◌&&◌, Option, none, some, String, List, [], ◌∷◌, ◌++◌, ◌==◌,
  nat_eq, all, length, mem, subset, without, within, distinct, Dict, lookup, insert, keys, Fields,
  ℤ, pos, negsuc, get, as_int, as_str, as_arr, int_eq, texts, codes, is_absolute, path_parts,
}
use dev_skills.Executor.Errors.{
  Result, ok, ◌>>=◌, ◌>>◌, require, require_some, run_state_illegal_transition,
  run_state_amendment_link_invalid, run_state_amendment_carry_invalid,
}
use dev_skills.Executor.Event.{Event}
use dev_skills.Executor.Contract.{Stage, dependencies}
use dev_skills.Executor.State.{in_progress, Evidence, carried, Replay}
use dev_skills.Executor.Reducer.Guards.{is_approved}

-- `previous_revision == plan_revision - 1`, for a `previous_revision` that is an `int`
abbrev is_previous : Option ℤ → ℕ → Bool
is_previous none revision = false
is_previous (some n) zero = int_eq n (negsuc 0)
is_previous (some n) (suc revision) = int_eq n (pos revision)

abbrev is_archive : Option String → Bool
is_archive none = false
is_archive (some path) =
    not (path == "") && not (is_absolute path) && not (mem ".." (path_parts path))

abbrev has_length_64 : Option String → Bool
has_length_64 none = false
has_length_64 (some s) = nat_eq (length (codes s)) 64

unfoldable pub check_amendment_link : ℕ → Fields → Result (Unit {0})
check_amendment_link revision payload = do
  require (is_previous (as_int (get "previous_revision" payload)) revision)
      run_state_amendment_link_invalid
  require (is_archive (as_str (get "previous_archive" payload))) run_state_amendment_link_invalid
  require (has_length_64 (as_str (get "previous_ledger_sha256" payload)))
      run_state_amendment_link_invalid

abbrev carried_texts : Fields → Option (List String)
carried_texts payload = elim (as_arr (get "carried_completed_stage_ids" payload)) [
  | none ↦ none
  | some xs ↦ texts xs
]

unfoldable pub carry_ids : List String → Dict Evidence
carry_ids [] = []
carry_ids (id ∷ ids) = insert id carried (carry_ids ids)

-- the validations of the carried stages count as passed
unfoldable pub carry_validations :
    Dict Stage → List String → Dict (Dict Evidence) → Dict (Dict Evidence)
unfolding carry_ids
carry_validations definitions [] validations = validations
carry_validations definitions (s ∷ l) validations = carry_validations definitions l (
    insert s
      (elim (lookup s definitions) [ none ↦ [] | some stage ↦ carry_ids stage.validation_ids ])
      validations)

-- the carried stages, once every check on them has passed
unfoldable pub carried_stages : Dict Stage → Fields → Result (List String)
carried_stages definitions payload = do
  ids ← require_some (carried_texts payload) run_state_amendment_carry_invalid
  require (distinct ids && subset ids (keys definitions)) run_state_amendment_carry_invalid
  require (all (λ s. subset (dependencies definitions s) ids) ids) run_state_amendment_carry_invalid
  ok ids

unfoldable pub on_amendment_approved : Dict Stage → Replay → Event → Result Replay
on_amendment_approved definitions r event = do
  require (is_approved r.lifecycle && nat_eq r.last_event_seq 0) run_state_illegal_transition
  check_amendment_link r.plan_revision event.payload
  ids ← carried_stages definitions event.payload
  ok (record r {
    state = record r.state {
      completed_stage_ids = within ids r.remaining_stage_ids;
      remaining_stage_ids = without ids r.remaining_stage_ids;
      lifecycle = in_progress;
      reapproval_required = false;
      stop_condition = none;
    };
    passed_validations = carry_validations definitions ids r.passed_validations;
    carried_stage_ids = r.carried_stage_ids ++ without r.carried_stage_ids ids;
  })
