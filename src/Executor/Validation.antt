-- ===== src/Executor/Validation.antt =====
-- skills/complex-coding-executor/scripts/harness_validation_schema.py
use dev_skills.Base.{
  ℕ, Bool, true, false, not, ◌&&◌, ◌||◌, Option, none, some, String, List, [], ◌∷◌, ◌==◌, nat_eq,
  leb, if◌then◌else◌, subset, Json, Fields, ℤ, pos, field_names, get, as_obj, as_nat, as_plain_int,
  as_str, is_none, int_eq, is_sha256,
}
use dev_skills.Executor.Errors.{
  Result, ok, ◌>>=◌, ◌>>◌, require, require_some, text_at, hashed,
  run_state_validation_payload_invalid, run_state_validation_provenance_invalid,
  run_state_validation_attempt_mismatch, run_state_validation_target_invalid,
  run_state_validation_exit_invalid,
}

abbrev pub validation_record_fields : List String
validation_record_fields =
    "validation_id" ∷ "result" ∷ "command" ∷ "claim_source" ∷ "stage_attempt" ∷ "target_digest"
    ∷ "exit_code" ∷ "summary" ∷ "claim_boundary" ∷ []

-- no field is unknown and none is missing
abbrev pub is_closed : List String → Fields → Bool
is_closed names fs = subset (field_names fs) names && subset names (field_names fs)

pub data Outcome : Type 0 where
  passed failed not_run : Outcome

-- VALIDATION_RESULTS
abbrev pub outcome_of : Option String → Option Outcome
outcome_of none = none
outcome_of (some s) =
    if s == "passed"
    then some passed
    else if s == "failed"
    then some failed
    else if s == "not-run"
    then some not_run
    else none

pub data ClaimSource : Type 0 where
  observed reported source_not_run : ClaimSource

-- VALIDATION_CLAIM_SOURCES
abbrev pub claim_source_of : Option String → Option ClaimSource
claim_source_of none = none
claim_source_of (some s) =
    if s == "observed"
    then some observed
    else if s == "reported"
    then some reported
    else if s == "not-run"
    then some source_not_run
    else none

-- The payload that the checks passed, with the fields that the reducer reads.
pub record ValidationRecord : Type 0 where
  pub validation_id : String
  pub result : Outcome
  pub claim_source : ClaimSource
  pub stage_attempt : ℕ
  pub target_digest : String
  pub exit_code : Option ℤ
  pub payload : Fields

-- a positive integer that is the attempt of the event
abbrev pub attempt_matches : Option ℕ → Option ℕ → Option ℕ
attempt_matches (some n) (some attempt) = if leb 1 n && nat_eq n attempt then some n else none
attempt_matches _ _ = none

abbrev pub digest_of : Option String → Option String
digest_of none = none
digest_of (some s) = if is_sha256 s then some s else none

-- `exit_code is None` or an integer that is no boolean
abbrev pub exit_code_of : Option Json → Option (Option ℤ)
exit_code_of v =
    if is_none v
    then some none
    else (elim (as_plain_int v) [ none ↦ none | some n ↦ some (some n) ])

abbrev pub is_zero : Option ℤ → Bool
is_zero none = false
is_zero (some n) = int_eq n (pos 0)

abbrev exit_is_none : Option ℤ → Bool
exit_is_none none = true
exit_is_none (some n) = false

-- The four rules that tie the result to its source and to the exit code.
abbrev pub is_passed : Outcome → Bool
is_passed passed = true
is_passed _ = false

abbrev is_failed : Outcome → Bool
is_failed failed = true
is_failed _ = false

abbrev is_not_run : Outcome → Bool
is_not_run not_run = true
is_not_run _ = false

abbrev is_observed : ClaimSource → Bool
is_observed observed = true
is_observed _ = false

pub check_provenance : Outcome → ClaimSource → Option ℤ → Result (Unit {0})
check_provenance result source exit_code = do
  require (not (is_passed result && (not (is_observed source) || not (is_zero exit_code))))
      run_state_validation_provenance_invalid
  require
      (not
        (is_observed source && is_failed result && (exit_is_none exit_code || is_zero exit_code)))
      run_state_validation_exit_invalid
  require
      (not (
        elim source [ source_not_run ↦ true | _ ↦ false ]
        && (not (is_not_run result) || not (exit_is_none exit_code))))
      run_state_validation_provenance_invalid
  require (not (elim source [ reported ↦ true | _ ↦ false ] && is_passed result))
      run_state_validation_provenance_invalid

unfoldable pub validate_validation_record : Json → Option ℕ → Result ValidationRecord
unfolding check_provenance
validate_validation_record payload attempt = do
  fs ← require_some (as_obj (some payload)) run_state_validation_payload_invalid
  require (is_closed validation_record_fields fs) run_state_validation_payload_invalid
  validation_id ← require_some (text_at "validation_id" fs) run_state_validation_payload_invalid
  command ← require_some (text_at "command" fs) run_state_validation_payload_invalid
  summary ← require_some (text_at "summary" fs) run_state_validation_payload_invalid
  boundary ← require_some (text_at "claim_boundary" fs) run_state_validation_payload_invalid
  result_text ← hashed (get "result" fs)
  result ← require_some (outcome_of result_text) run_state_validation_provenance_invalid
  source_text ← hashed (get "claim_source" fs)
  source ← require_some (claim_source_of source_text) run_state_validation_provenance_invalid
  stage_attempt ←
      require_some (attempt_matches (as_nat (get "stage_attempt" fs)) attempt)
        run_state_validation_attempt_mismatch
  digest ←
      require_some (digest_of (as_str (get "target_digest" fs))) run_state_validation_target_invalid
  exit_code ← require_some (exit_code_of (get "exit_code" fs)) run_state_validation_exit_invalid
  check_provenance result source exit_code
  ok (record {
    validation_id = validation_id;
    result = result;
    claim_source = source;
    stage_attempt = stage_attempt;
    target_digest = digest;
    exit_code = exit_code;
    payload = fs;
  })
