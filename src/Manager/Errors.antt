-- ===== src/Manager/Errors.antt =====
-- skills/process-manager/scripts/process_manager/errors.py: an error is its class, without its
-- message and its diagnostics.
use dev_skills.Base.{Fallible}
pub use dev_skills.Base.{
  ok, err, ◌>>=◌, ◌>>◌, require, require_some, >>=-eq-ok, Fallible-cases, ok-injective,
}

pub data Error : Type 0 where
  state_error conflict_error not_found_error resource_budget_error validation_error : Error
  operation_conflict_error resource_usage_unverifiable_error : Error
  session_expired_error session_not_found_error session_cleanup_pending_error : Error

abbrev pub Result {ℓ} : Type ℓ → Type ℓ
Result A = Fallible Error A
