-- ===== src/Manager/Fence.antt =====
-- skills/process-manager/scripts/process_manager/state.py: the intake fence of a destructive
-- operation. While it stands no run and no session is created.
use dev_skills.Base.{
  ℕ, Bool, true, false, not, ◌&&◌, ◌||◌, Option, none, some, String, List, [], ◌∷◌, ◌==◌, nat_eq,
  if◌then◌else◌, is_empty, Dict, sorted,
}
use dev_skills.Manager.Errors.{
  Result, ok, err, ◌>>◌, require, conflict_error, operation_conflict_error,
}
use dev_skills.Manager.State.{is_active, persistent, Ownership, is_live, Fence, State}

-- the keys of the entries that pass a test
abbrev pub chosen_keys {ℓ} : {V : Type ℓ} → (V → Bool) → Dict V → List String
chosen_keys p [] = []
chosen_keys p ((key, v) ∷ l) = let rest = chosen_keys p l in if p v then key ∷ rest else rest

unfoldable pub active_run_keys : State → List String
active_run_keys state = chosen_keys (λ run. is_active run.status) state.processes

unfoldable pub active_session_ids : State → List String
active_session_ids state = chosen_keys (λ session. is_live session.state) state.sessions

abbrev is_persistent : Ownership → Bool
is_persistent persistent = true
is_persistent _ = false

pub record Summary : Type 0 where
  pub work_generation : ℕ
  pub intake_fence : Option Fence
  pub active_run_keys : List String
  pub active_session_ids : List String
  pub persistent_run_keys : List String

unfoldable pub work_summary : State → Summary
work_summary state = record {
  work_generation = state.work_generation;
  intake_fence = state.intake_fence;
  active_run_keys = sorted (active_run_keys state);
  active_session_ids = sorted (active_session_ids state);
  persistent_run_keys =
      sorted
        (chosen_keys (λ run. is_active run.status && is_persistent run.ownership) state.processes);
}

abbrev fences : Fence → String → String → ℕ → Bool
fences fence operation_id kind expected_generation =
    fence.operation_id == operation_id
    && fence.kind == kind
    && nat_eq fence.expected_generation expected_generation

unfoldable pub install_intake_fence :
    State → String → String → ℕ → Bool → ℕ → Result (State × Fence)
install_intake_fence state operation_id kind expected_generation require_idle now =
    elim state.intake_fence [
      | some existing ↦ (do
        require (fences existing operation_id kind expected_generation) conflict_error
        ok (state, existing))
      | none ↦ (do
        require (nat_eq state.work_generation expected_generation) conflict_error
        require
            (not (
              require_idle
              && (not (is_empty (active_run_keys state))
                  || not (is_empty (active_session_ids state)))))
            conflict_error
        let fence : Fence = record {
          operation_id = operation_id;
          kind = kind;
          expected_generation = expected_generation;
          installed_at = now;
        }
        ok (record state { intake_fence = some fence }, fence))
    ]

unfoldable pub clear_intake_fence : State → String → Result State
clear_intake_fence state operation_id = elim state.intake_fence [
  | none ↦ ok state
  | some fence ↦ (do
    require (fence.operation_id == operation_id) conflict_error
    ok (record state { intake_fence = none }))
]

-- what `operations.read()` returns: the id and the state of the operation
unfoldable pub clear_terminal_intake_fence : State → Option (String × String) → Result State
clear_terminal_intake_fence state operation = elim (work_summary state).intake_fence [
  | none ↦ ok state
  | some fence ↦ elim operation [
    | none ↦ err operation_conflict_error
    | some (operation_id, operation_state) ↦ (do
      require (operation_id == fence.operation_id) operation_conflict_error
      if operation_state == "pending" then ok state else (do
        require
            (is_empty (work_summary state).active_run_keys
              && is_empty (work_summary state).active_session_ids)
            operation_conflict_error
        clear_intake_fence state operation_id))
  ]
]
