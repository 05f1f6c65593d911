-- ===== src/Executor/Errors.antt =====
-- skills/complex-coding-executor/scripts/harness_state_errors.py: what a check raises. A
-- `StateError` is its code; the message is not modelled. `type_error` is the `TypeError` of a set
-- lookup with a list or a dict, `key_error` the `KeyError` of an unknown stage, and `out_of_fuel`
-- an outcome that the program lacks.
pub use dev_skills.Base.{ok, err, ◌>>=◌, ◌>>◌, >>=-eq-ok, Fallible-cases, ok-injective}
use dev_skills.Base.{
  Fallible, Bool, true, false, Option, none, some, ◌≡◌, refl, String, Json, Fields, as_str,
  is_hashable, get, has_text, if◌then◌else◌,
}

pub data Code : Type 0 where
  task_contract_invalid_field task_contract_stage_cycle : Code
  ledger_unknown_field ledger_missing_field ledger_sequence_gap ledger_event_id_invalid : Code
  ledger_invalid_timestamp ledger_task_mismatch ledger_revision_mismatch : Code
  ledger_event_type_invalid ledger_stage_unknown ledger_stage_required : Code
  ledger_attempt_invalid ledger_attempt_required ledger_payload_invalid : Code
  ledger_evidence_invalid : Code
  run_state_terminal run_state_illegal_transition run_state_stage_already_active : Code
  run_state_stage_not_remaining run_state_stage_dependency run_state_attempt_sequence : Code
  run_state_stage_mismatch run_state_event_evidence_invalid run_state_validation_unknown : Code
  run_state_review_timing_invalid run_state_validation_incomplete : Code
  run_state_review_incomplete run_state_review_scope_mismatch : Code
  run_state_validation_target_mismatch run_state_reapproval_required : Code
  run_state_amendment_link_invalid run_state_amendment_carry_invalid : Code
  run_state_commit_evidence_invalid run_state_commit_timing_invalid : Code
  run_state_final_incomplete run_state_final_review_incomplete : Code
  run_state_validation_payload_invalid run_state_validation_provenance_invalid : Code
  run_state_validation_attempt_mismatch run_state_validation_target_invalid : Code
  run_state_validation_exit_invalid : Code
  run_state_review_scope_invalid run_state_review_payload_invalid : Code
  run_state_review_profile_invalid run_state_review_provenance_invalid : Code
  run_state_review_report_invalid run_state_review_target_invalid : Code
  run_state_review_verdict_invalid run_state_review_result_invalid : Code
  run_state_review_counts_invalid run_state_review_gap_counts_invalid : Code
  run_state_review_coverage_invalid run_state_review_lineage_invalid : Code
  run_state_review_strength_invalid : Code
  run_state_invalid_json run_state_invalid_type run_state_unknown_field : Code
  run_state_missing_field run_state_invalid_value run_state_duplicate_stage : Code
  run_state_stage_set_conflict run_state_write_failed : Code
  run_state_drift run_state_blocked run_state_not_executable run_state_stage_active : Code
  run_state_not_started run_state_ahead_of_ledger run_state_commit_evidence_missing : Code
  attestation_commit_denied task_pointer_not_closed : Code

pub data Error : Type 0 where
  state_error : Code → Error
  type_error key_error out_of_fuel : Error

abbrev pub Result {ℓ} : Type ℓ → Type ℓ
Result A = Fallible Error A

-- `if not condition: raise StateError(code, …)`
abbrev pub require : Bool → Code → Result (Unit {0})
require true code = ok tt
require false code = err (state_error code)

-- a value that a check found, or the error of the check
abbrev pub require_some {ℓ} : {A : Type ℓ} → Option A → Code → Result A
require_some (some a) code = ok a
require_some none code = err (state_error code)

-- `isinstance(fs.get(name), str) and fs.get(name).strip()`, with the text
abbrev pub text_at : String → Fields → Option String
text_at name fs = elim (as_str (get name fs)) [
  | none ↦ none
  | some s ↦ if has_text s then some s else none
]

-- `v in s` for a set of texts: a list or a dict cannot be looked up
abbrev pub hashed : Option Json → Result (Option String)
hashed v = if is_hashable v then ok (as_str v) else err type_error

pub require-eq-ok {ℓ} :
    {B : Type ℓ} (c : Bool) (code : Code) (k : Result B) {b : B}
    → (require c code >> k) ≡ ok b
    → (c ≡ true) × (k ≡ ok b)
require-eq-ok true code k h = (refl, h)
require-eq-ok false code k h = cc

pub bind_cong {ℓ κ} :
    {A : Type ℓ} {B : Type κ} (m : Result A) (f g : A → Result B)
    → ((a : A) → f a ≡ g a)
    → (m >>= f) ≡ (m >>= g)
bind_cong (ok a) f g h = h a
bind_cong (err e) f g h = refl

pub bind_assoc {ℓ κ μ} :
    {A : Type ℓ} {B : Type κ} {C : Type μ} (m : Result A) (f : A → Result B) (g : B → Result C)
    → (m >>= λ a. f a >>= g) ≡ (m >>= f >>= g)
bind_assoc (ok a) f g = refl
bind_assoc (err e) f g = refl
