-- ===== src/Verifier/Errors.antt =====
-- skills/electron-ui-verifier/scripts/electron_verifier/errors.py: a `VerifierError` is its code.
use dev_skills.Base.{Fallible}
pub use dev_skills.Base.{ok, err, ◌>>=◌, ◌>>◌, require, require_some, >>=-eq-ok, Fallible-cases}

pub data Code : Type 0 where
  invalid_operation_id operation_not_found operation_store_invalid : Code
  operation_transition_invalid operation_request_conflict operation_history_full : Code
  operation_cancelled operation_deadline_exceeded artifact_too_large : Code
  operation_internal_error operation_result_failed operation_outcome_unknown : Code
  risk_authorization_invalid risk_authorization_not_found risk_authorization_mismatch : Code
  risk_authorization_expired risk_authorization_note_required risk_authorization_conflict : Code
  risk_authorization_required risk_authorization_not_required risk_authorization_consumed : Code
  service_restarted_before_execution service_interrupted : Code
  -- an error of the code that the operation calls
  executor_error : Code

abbrev pub Result {ℓ} : Type ℓ → Type ℓ
Result A = Fallible Code A
